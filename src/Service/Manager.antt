-- ===== src/Service/Manager.antt =====
-- internal/domain/service/manager.go. A `*runningProc` is a handle into `waiting`, which holds
-- every process whose `awaitExit` goroutine is not done: `procs` and that goroutine share it.
-- What the operating system answers, the clock and the choice of the moment are arguments.
-- `filepath.Join` is written for a clean log directory and an id without `/`.
pub mod Stop
pub mod Race
pub mod Budget
pub mod Remembered
pub mod Runs
pub mod Stops
pub mod Records
pub mod Exits
pub mod Live
pub mod Invariant
pub mod Autostart
pub mod Startup
use alresia_voltpanel.Prelude.{
  ℕ, suc, ◌+◌, ◌*◌, ◌-◌, ◌≡◌, String, Bool, true, false, not, ◌&&◌, ◌||◌, Option, none, some, List,
  [], ◌∷◌, ◌++◌, map, str_eq, concat, leb, ltb, length, drop, keep, filter_map, if◌then◌else◌,
}
use alresia_voltpanel.Prelude.Int.{ℤ, pos, negsuc, is_zero, is_positive, int_lt, magnitude}
use alresia_voltpanel.Prelude.Dict.{Dict, get, put, remove, values, nat_key, string_key}
use alresia_voltpanel.Storage.{
  ServiceRecord, Store, upsert_service_record, get_service_record, list_service_records,
}
use alresia_voltpanel.Service.Entity.{
  Service, StartRequest, to_service, to_record, from_record, status_stopped, status_running,
  status_failed, restart_always, restart_on_failure, default_restart_window,
  default_graceful_timeout,
}

pub record RunningProc : Type 0 where
  pub svc : Service
  pub stop_requested : Bool
  pub restart_times : List ℕ

pub record Manager : Type 0 where
  pub store : Store
  pub procs : Dict String ℕ
  pub waiting : Dict ℕ RunningProc
  pub next_handle : ℕ

pub data Error : Type 0 where
  already_running : String → Error
  command_required : Error
  not_running : String → Error
  unknown_service : String → Error
  -- the error of a call of `os`, `exec` or the database
  system : String → Error
  dependency_cycle : List String → Error
  cancelled : Error

pub data Result {ℓ} (A : Type ℓ) : Type ℓ where
  ok : A → Result A
  err : Error → Result A

-- What `MkdirAll`, `OpenFile` and `cmd.Start` answer, with the time after it.
pub data Launch : Type 0 where
  refused : String → Launch
  launched : ℕ → ℕ → Launch

-- The result of `cmd.Wait`: nil, an `*exec.ExitError` with its code, or another error.
pub data Wait : Type 0 where
  clean : Wait
  exit_error : ℤ → Wait
  wait_failed : Wait

-- One end of a process: what `Wait` returned, `time.Now()` there and in `pruneRestartWindow`, and
-- the answer to a restart.
pub record Exit : Type 0 where
  pub wait : Wait
  pub now : ℕ
  pub pruned_at : ℕ
  pub relaunch : Launch

-- A failed write is only logged.
unfoldable pub persist : Manager → ℕ → Service → Manager
persist m now svc = elim (upsert_service_record now (to_record svc) m.store) [
  | none ↦ m
  | some s ↦ record m { store = s }
]

-- The service as `startProcess` fills it in once the process runs.
unfoldable pub started : Store → Service → ℕ → ℕ → Service
started store svc pid now = record svc {
  pid = pid;
  status = status_running;
  started_at = some now;
  exited_at = none;
  exit_code = none;
  log_file =
      if str_eq svc.log_file ""
      then concat store.log_dir (concat "/" (concat svc.id ".log"))
      else svc.log_file;
}

unfoldable pub start_process : Manager → Service → List ℕ → Launch → Manager × Result Service
unfolding started persist
start_process m svc restart_times (refused e) = (m, err (system e))
start_process m svc restart_times (launched pid now) =
    let svc' = started m.store svc pid now in
    let rp : RunningProc = record {
      svc = svc';
      stop_requested = false;
      restart_times = restart_times;
    } in
    (
      persist
          (record m {
            procs = put svc.id m.next_handle m.procs;
            waiting = put m.next_handle rp m.waiting;
            next_handle = suc m.next_handle;
          })
          now svc',
      ok svc',
    )

-- The check of `Start`, made under the lock, which is then given up.
unfoldable pub check_start : Manager → StartRequest → Option Error
check_start m req = elim (get req.id m.procs) [
  | some h ↦ some (already_running req.id)
  | none ↦ if str_eq req.command "" then some command_required else none
]

unfoldable pub start : Manager → StartRequest → Launch → Manager × Result Service
unfolding check_start start_process
start m req launch = elim (check_start m req) [
  | some e ↦ (m, err e)
  | none ↦ start_process m (to_service req) [] launch
]

unfoldable pub exit_code : Wait → ℤ
exit_code clean = pos 0
exit_code (exit_error code) = code
exit_code wait_failed = negsuc 0

-- t is after `now - window`
unfoldable pub prune_restart_window : List ℕ → ℤ → ℕ → List ℕ
unfolding is_positive
prune_restart_window times window now =
    let w = magnitude (if is_positive window then window else default_restart_window) in
    keep (λ t. ltb now (t + w)) times

unfoldable pub should_restart : Service → ℤ → Bool
unfolding is_zero
should_restart svc code =
    str_eq svc.restart_policy restart_always
    || (str_eq svc.restart_policy restart_on_failure && not (is_zero code))

-- the service as the end of its process leaves it, `Status` not yet decided
unfoldable pub exited : RunningProc → Exit → Service
unfolding exit_code
exited rp x = record rp.svc { exited_at = some x.now; exit_code = some (exit_code x.wait); pid = 0 }

-- the restarts in the window, this one included
unfoldable pub recent_restarts : RunningProc → Exit → List ℕ
unfolding prune_restart_window
recent_restarts rp x =
    prune_restart_window (rp.restart_times ++ x.now ∷ []) rp.svc.restart_window x.pruned_at

-- What `awaitExit` decides: the service's final status, or a restart.
pub data Verdict : Type 0 where
  leave : String → Verdict
  again : Verdict

unfoldable pub verdict : RunningProc → Exit → Verdict
unfolding exit_code recent_restarts should_restart
verdict rp x =
    let code = exit_code x.wait in
    if rp.stop_requested
    then leave status_stopped
    else if not (should_restart rp.svc code)
    then leave (if is_zero code then status_stopped else status_failed)
    else if int_lt rp.svc.max_restarts (length (recent_restarts rp x))
    then leave status_failed
    else again

unfoldable pub leave_as : Manager → RunningProc → Exit → String → Manager
unfolding exited persist
leave_as m rp x status = persist m x.now (record (exited rp x) { status = status })

unfoldable pub relaunch : Manager → RunningProc → Exit → Launch → Manager
unfolding exited recent_restarts start_process leave_as
relaunch m rp x l =
    let (m', r) = start_process m (exited rp x) (recent_restarts rp x) l in
    elim r [ ok svc ↦ m' | err e ↦ leave_as m' rp x status_failed ]

unfoldable pub carry_out : Manager → RunningProc → Exit → Verdict → Manager
unfolding leave_as relaunch
carry_out m rp x (leave status) = leave_as m rp x status
carry_out m rp x again = relaunch m rp x x.relaunch

-- `awaitExit` after its locked part
unfoldable pub settle : Manager → RunningProc → Exit → Manager
unfolding verdict carry_out
settle m rp x = carry_out m rp x (verdict rp x)

-- The locked part of `awaitExit` takes the id, not the handle, out of `procs`. The goroutine of
-- handle `h` then ends, with `settle`.
unfoldable pub await_exit : Manager → ℕ → Exit → Manager
unfolding settle
await_exit m h x = elim (get h m.waiting) [
  | none ↦ m
  | some rp ↦
      settle (record m { procs = remove rp.svc.id m.procs; waiting = remove h m.waiting }) rp x
]

-- Get and Status
unfoldable pub live : Manager → String → Option Service
live m id = elim (get id m.procs) [
  | none ↦ none
  | some h ↦ elim (get h m.waiting) [ none ↦ none | some rp ↦ some rp.svc ]
]

unfoldable pub list : Manager → List Service
unfolding values
list m =
    filter_map (λ h. elim (get h m.waiting) [ none ↦ none | some rp ↦ some rp.svc ])
      (values m.procs)

-- `read` is `os.ReadFile`; `tail` keeps the last 64 KiB.
unfoldable pub read_log : Manager → (String → Result (List ℕ)) → String → Bool → Result (List ℕ)
read_log m read id tail = elim (get_service_record id m.store) [
  | none ↦ err (unknown_service id)
  | some rec ↦ elim (read rec.log_file) [
    | err e ↦ err e
    | ok b ↦
        if not tail
        then ok b
        else if ltb (64 * 1024) (length b)
        then ok (drop (length b - 64 * 1024) b)
        else ok b
  ]
]
