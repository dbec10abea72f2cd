-- ===== src/Service/Manager/Records.antt =====
-- The persisted status of a service beside its processes: what manager.go's `persist` leaves.
use mathlib.Core.Option
use alresia_voltpanel.Prelude.{
  ℕ, ◌≡◌, String, Bool, true, false, Option, some, str_eq, arith, if◌then◌else◌, Option-cases, inl,
  inr,
}
use alresia_voltpanel.Prelude.Dict.{get, remove, nat_key, string_key}
use alresia_voltpanel.Storage.{Store, ServiceRecord, get_service_record, upsert_service_record}
use alresia_voltpanel.Storage.Rows.{get-upsert_service_record}
use alresia_voltpanel.Service.Entity.{Service, status_running, status_failed, to_record}
use alresia_voltpanel.Service.Manager.{
  RunningProc, Manager, Launch, refused, launched, Exit, persist, started, start_process, settle,
  carry_out, leave_as, relaunch, exited, leave, again, await_exit,
}
use alresia_voltpanel.Service.Manager.Exits.{wants_restart, final_status, verdict-wants_restart}

-- The status in the database.
unfoldable pub recorded : Store → String → Option String
recorded s j = Option.map (λ (r : ServiceRecord). r.status) (get_service_record j s)

-- The database answers queries and statements.
pub record IsUp (s : Store) : Type 0 where
  pub reads : s.reads ≡ true
  pub writes : s.writes ≡ true

abbrev pub Upserts : Manager → ℕ → Service → Type 0
Upserts m now svc = (t : Store) × (upsert_service_record now (to_record svc) m.store ≡ some t)

upserts : (m : Manager) (now : ℕ) (svc : Service) → IsUp m.store → Upserts m now svc
unfolding upsert_service_record
upserts m now svc up = elim (Option-cases (upsert_service_record now (to_record svc) m.store)) [
  | inl e ↦ absurd (ground (arith, up.writes))
  | inr found ↦ found
]

pub recorded-persist :
    (m : Manager) (now : ℕ) (svc : Service) (j : String)
    → IsUp m.store
    → recorded (persist m now svc).store j
      ≡ (if str_eq svc.id j then some svc.status else recorded m.store j)
unfolding recorded persist to_record
recorded-persist m now svc j up =
    let (t, e) = upserts m now svc up in
    rw (e, persist)
      (rw (get-upsert_service_record now (to_record svc) m.store t e j, up.reads) (ground arith))

pub persist-IsUp :
    (m : Manager) (now : ℕ) (svc : Service) → IsUp m.store → IsUp (persist m now svc).store
unfolding persist upsert_service_record
persist-IsUp m now svc up = ground arith

-- The status that an end of the process leaves in the database.
unfoldable pub status_after : RunningProc → Exit → Launch → String
status_after rp x l =
    if wants_restart rp x
    then elim l [ refused e ↦ status_failed | launched pid now ↦ status_running ]
    else final_status rp x

module _ (m : Manager) (rp : RunningProc) (x : Exit) (j : String) (up : IsUp m.store) where
  leave_as-recorded :
      (status : String)
      → recorded (leave_as m rp x status).store j
        ≡ (if str_eq rp.svc.id j then some status else recorded m.store j)
  unfolding leave_as exited
  leave_as-recorded status = recorded-persist m x.now _ j up

  relaunch-recorded :
      (l : Launch)
      → recorded (relaunch m rp x l).store j ≡ (
          if str_eq rp.svc.id j
          then some (elim l [ refused e ↦ status_failed | launched pid now ↦ status_running ])
          else recorded m.store j)
  unfolding relaunch start_process exited started
  relaunch-recorded (refused e) = leave_as-recorded status_failed
  relaunch-recorded (launched pid now) = recorded-persist _ now _ j up

  carry_out-recorded :
      (b : Bool)
      → recorded (carry_out m rp x (if b then again else leave (final_status rp x))).store j ≡ (
          if str_eq rp.svc.id j
          then some (
              if b
              then elim x.relaunch [ refused e ↦ status_failed | launched pid now ↦ status_running ]
              else final_status rp x)
          else recorded m.store j)
  unfolding carry_out
  carry_out-recorded true = relaunch-recorded x.relaunch
  carry_out-recorded false = leave_as-recorded (final_status rp x)

-- With the database up, after a process that the manager waits for has ended, its service is
-- recorded as running if it runs again, as stopped if the stop was asked for or was a clean exit
-- that the policy does not restart, and as failed otherwise; no other record changes its status.
pub await_exit-recorded :
    (m : Manager) (h : ℕ) (rp : RunningProc) (x : Exit) (j : String)
    → IsUp m.store
    → get h m.waiting ≡ some rp
    → recorded (await_exit m h x).store j
      ≡ (if str_eq rp.svc.id j then some (status_after rp x x.relaunch) else recorded m.store j)
unfolding await_exit settle status_after
await_exit-recorded m h rp x j up found =
    rw (found, await_exit)
      (rw (verdict-wants_restart rp x) (
        carry_out-recorded
          (record m { procs = remove rp.svc.id m.procs; waiting = remove h m.waiting }) rp x j up
          (wants_restart rp x)))
