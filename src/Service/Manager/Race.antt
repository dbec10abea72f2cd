-- ===== src/Service/Manager/Race.antt =====
-- Two calls of `Start` in manager.go for one id: `Start` gives its lock up between the check and
-- `startProcess`, so that both calls may pass the check before either starts a process.
use alresia_voltpanel.Prelude.{
  ℕ, suc, ◌≡◌, refl, ap, String, Bool, false, none, some, [], str_eq_refl, sym, arith,
  if◌then◌else◌, ◌==◌,
}
use alresia_voltpanel.Prelude.Int.{ℤ}
use alresia_voltpanel.Prelude.Dict.{get, remove, get-put, get-remove, nat_key, string_key}
use alresia_voltpanel.Service.Entity.{Service, StartRequest, to_service}
use alresia_voltpanel.Service.Manager.{
  RunningProc, Manager, Launch, launched, Exit, live, start_process, check_start, await_exit,
  settle, carry_out, leave_as, exited, started, not_running,
}
use alresia_voltpanel.Service.Manager.Stop.{Stopping, stop}
use alresia_voltpanel.Service.Manager.Invariant.{launched_proc, start_process-fields, persist-procs}
use alresia_voltpanel.Service.Manager.Live.{none-live}
use alresia_voltpanel.Service.Manager.Exits.{wants_restart, final_status, verdict-wants_restart}

-- Two calls that check first, one after the other, and then each start their process if they may.
unfoldable pub start_both : Manager → StartRequest → StartRequest → Launch → Launch → Manager
start_both m first second l l' = elim (check_start m first) [
  | some e ↦ elim (check_start m second) [
    | some e' ↦ m
    | none ↦ (start_process m (to_service second) [] l').0
  ]
  | none ↦ elim (check_start m second) [
    | some e' ↦ (start_process m (to_service first) [] l).0
    | none ↦ (start_process (start_process m (to_service first) [] l).0 (to_service second) [] l').0
  ]
]

module _ (m : Manager) (svc svc' : Service) (pid now pid' now' : ℕ) where
  abbrev once : Manager
  once = (start_process m svc [] (launched pid now)).0

  abbrev twice : Manager
  twice = (start_process once svc' [] (launched pid' now')).0

  waiting-twice :
      (h : ℕ)
      → get h twice.waiting ≡ (
          if suc m.next_handle == h
          then some (launched_proc once svc' [] pid' now')
          else if m.next_handle == h
          then some (launched_proc m svc [] pid now)
          else get h m.waiting)
  waiting-twice h =
      let (p, w, n) = start_process-fields m svc [] pid now in
      let (p', w', n') = start_process-fields once svc' [] pid' now' in
      ground (
        arith,
        ap (get h) w',
        ap (get h) w,
        n,
        get-put once.next_handle h (launched_proc once svc' [] pid' now') once.waiting,
        get-put m.next_handle h (launched_proc m svc [] pid now) m.waiting,
      )

leave_as-fields :
    (m : Manager) (rp : RunningProc) (x : Exit) (status : String)
    → ((leave_as m rp x status).procs ≡ m.procs) × ((leave_as m rp x status).waiting ≡ m.waiting)
unfolding leave_as
leave_as-fields m rp x status =
    let (p, w, n) = persist-procs m x.now (record (exited rp x) { status = status }) in (p, w)

-- The end of a process that is not started again.
module _ (n : Manager) (h : ℕ) (rp : RunningProc) (x : Exit) (found : get h n.waiting ≡ some rp)
    (over : wants_restart rp x ≡ false) where
  abbrev without : Manager
  without = record n { procs = remove rp.svc.id n.procs; waiting = remove h n.waiting }

  await_exit-leaves : await_exit n h x ≡ leave_as without rp x (final_status rp x)
  unfolding await_exit settle carry_out
  await_exit-leaves = rw (found, await_exit) (rw (verdict-wants_restart rp x) (rw over))

  leaves-fields :
      (get rp.svc.id (await_exit n h x).procs ≡ none)
      × ((k : ℕ) → get k (await_exit n h x).waiting ≡ (if h == k then none else get k n.waiting))
  leaves-fields =
      let (p, w) = leave_as-fields without rp x (final_status rp x) in
      rw await_exit-leaves (
        rw p (ground (arith, get-remove rp.svc.id rp.svc.id n.procs, str_eq_refl rp.svc.id)),
        λ k. rw w (get-remove h k n.waiting),
      )

-- When two calls of `Start` for one id both pass the check before either starts its process, and
-- the first process then ends without a restart, the second one still runs and is lost: no
-- service of that id is live, and `Stop` refuses to stop it.
pub start_both-orphan :
    (m : Manager) (first second : StartRequest) (pid now pid' now' : ℕ) (x : Exit)
    → check_start m first ≡ none
    → check_start m second ≡ none
    → first.id ≡ second.id
    → wants_restart (launched_proc m (to_service first) [] pid now) x ≡ false
    → let m' =
        await_exit
          (start_both m first second (launched pid now) (launched pid' now'))
          m.next_handle
          x in
      (live m' first.id ≡ none)
      × ((rp : RunningProc) × (get (suc m.next_handle) m'.waiting ≡ some rp)
          × (rp.svc.id ≡ first.id)
          × (rp.svc.pid ≡ pid'))
      × ((graceful : Bool) (timeout : ℤ) (s : Stopping)
          → stop m' first.id graceful timeout s ≡ (m', some (not_running first.id)))
unfolding start_both started to_service
start_both-orphan m first second pid now pid' now' x c c' same over =
    let n = twice m (to_service first) (to_service second) pid now pid' now' in
    let w = waiting-twice m (to_service first) (to_service second) pid now pid' now' in
    let (gone, left) =
      leaves-fields n m.next_handle (launched_proc m (to_service first) [] pid now) x
        (ground (arith, w m.next_handle)) over in
    rw (c, start_both)
      (rw (c', start_both)
        (
          none-live (await_exit n m.next_handle x) first.id gone,
          (
            launched_proc (once m (to_service first) (to_service second) pid now pid' now')
                (to_service second) [] pid' now',
            ground (arith, w (suc m.next_handle), left (suc m.next_handle)),
            sym same,
            refl,
          ),
          λ graceful timeout s. unfold stop in rw (gone, stop),
        ))
