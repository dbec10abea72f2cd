-- ===== src/Service/Manager/Stop.antt =====
-- `Stop` and `Restart` of internal/domain/service/manager.go.
use alresia_voltpanel.Prelude.{
  ℕ, String, Bool, true, not, Option, none, some, [], ltb, if◌then◌else◌,
}
use alresia_voltpanel.Prelude.Int.{ℤ, pos, is_positive, magnitude}
use alresia_voltpanel.Prelude.Dict.{get, put, nat_key, string_key}
use alresia_voltpanel.Storage.{get_service_record}
use alresia_voltpanel.Service.Entity.{Service, from_record, default_graceful_timeout}
use alresia_voltpanel.Service.Manager.{
  RunningProc, Manager, Error, not_running, unknown_service, system, Result, ok, err, Launch, Exit,
  start_process, await_exit, live,
}

-- How a process takes a request to stop: the error of `terminate`, if any, the time after which it
-- ends of itself, the error of `proc.Kill`, if any, and the end itself.
pub record Stopping : Type 0 where
  pub terminate_error : Option String
  pub ends_after : ℕ
  pub kill_error : Option String
  pub exit : Exit

-- `timeout`, or the service's, or the default, in nanoseconds
unfoldable pub stop_timeout : ℤ → ℤ → ℕ
unfolding is_positive
stop_timeout timeout configured = magnitude (
    if is_positive timeout
    then timeout
    else if is_positive configured
    then configured
    else default_graceful_timeout)

-- The locked part of `Stop`: the mark on the shared `runningProc`.
unfoldable pub request_stop : Manager → ℕ → RunningProc → Manager
request_stop m h rp = record m { waiting = put h (record rp { stop_requested = true }) m.waiting }

failure : Option String → Option Error
failure none = none
failure (some e) = some (system e)

-- what `Stop` returns once the process is gone
unfoldable pub stop_result : Bool → ℕ → Stopping → Option Error
unfolding failure
stop_result graceful timeout s =
    if not graceful then failure s.kill_error else elim s.terminate_error [
      | some e ↦ failure s.kill_error
      | none ↦ if ltb s.ends_after timeout then none else failure s.kill_error
    ]

-- A handle in `procs` is in `waiting` too; `none` is success.
unfoldable pub stop : Manager → String → Bool → ℤ → Stopping → Manager × Option Error
unfolding request_stop await_exit stop_timeout stop_result
stop m id graceful timeout s = elim (get id m.procs) [
  | none ↦ (m, some (not_running id))
  | some h ↦ elim (get h m.waiting) [
    | none ↦ (m, some (not_running id))
    | some rp ↦ (
      await_exit (request_stop m h rp) h s.exit,
      stop_result graceful (stop_timeout timeout rp.svc.graceful_timeout) s,
    )
  ]
]

error_of : Result Service → Option Error
error_of (ok svc) = none
error_of (err e) = some e

unfoldable pub restart : Manager → String → Stopping → Launch → Manager × Option Error
unfolding live stop start_process error_of
restart m id s launch = elim (live m id) [
  | some svc ↦
      (let (m', stopped) = stop m id true (pos 0) s in
        elim stopped [
          | some e ↦ (m', some e)
          | none ↦ (let (m'', r) = start_process m' svc [] launch in (m'', error_of r))
        ])
  | none ↦ elim (get_service_record id m.store) [
    | none ↦ (m, some (unknown_service id))
    | some rec ↦ (let (m', r) = start_process m (from_record rec) [] launch in (m', error_of r))
  ]
]
