-- ===== src/Service/Manager/Stops.antt =====
-- What `Stop` of manager.go leaves behind.
use alresia_voltpanel.Prelude.{
  ℕ, ◌≡◌, refl, ap, String, Bool, true, false, none, some, str_eq, ◌∙◌, sym, arith, if◌then◌else◌,
  Bool-cases, Option-cases, inl, inr, ◌==◌,
}
use alresia_voltpanel.Prelude.Int.{ℤ}
use alresia_voltpanel.Prelude.Dict.{get, get-put, nat_key, string_key, nat_iff}
use alresia_voltpanel.Service.Entity.{Service, status_stopped}
use alresia_voltpanel.Service.Manager.{RunningProc, Manager, Exit, not_running, live}
use alresia_voltpanel.Service.Manager.Stop.{Stopping, request_stop, stop}
use alresia_voltpanel.Service.Manager.Invariant.{Inv, await_exit-Inv}
use alresia_voltpanel.Service.Manager.Live.{live-some, live-managed, none-live, live-none}
use alresia_voltpanel.Service.Manager.Exits.{await_exit-live, wants_restart, final_status}
use alresia_voltpanel.Service.Manager.Records.{IsUp, recorded, status_after, await_exit-recorded}

abbrev marked : RunningProc → RunningProc
marked rp = record rp { stop_requested = true }

module _ (m : Manager) (i : Inv m) (h : ℕ) (rp : RunningProc)
    (found : get h m.waiting ≡ some rp) where
  found_marked : get h (request_stop m h rp).waiting ≡ some (marked rp)
  unfolding request_stop
  found_marked = ground (arith, get-put h h (marked rp) m.waiting, nat_iff h h)

  same_service :
      (k : ℕ) (r : RunningProc)
      → get k m.waiting ≡ some r
      → (r' : RunningProc) × (get k (request_stop m h rp).waiting ≡ some r') × (r'.svc ≡ r.svc)
  unfolding request_stop
  same_service k r e = elim (Bool-cases (h == k)) [
    | inl s ↦ (
      marked rp,
      ground (arith, s, get-put h k (marked rp) m.waiting),
      ground (arith, s, nat_iff h k),
    )
    | inr s ↦ (r, ground (arith, s, get-put h k (marked rp) m.waiting), refl)
  ]

  pub request_stop-Inv : Inv (request_stop m h rp)
  unfolding request_stop
  request_stop-Inv = record {
    managed = λ id k e.
        let (r, w, s) = i.managed id k e in
        let (r', w', s') = same_service k r w in (r', w', ap (λ (svc : Service). svc.id) s' ∙ s);
    tracked = λ k r e. ground (
      arith,
      get-put h k (marked rp) m.waiting,
      nat_iff h k,
      i.tracked h rp found,
      i.tracked k r,
    );
    fresh = λ k r e.
        ground
          (arith, get-put h k (marked rp) m.waiting, nat_iff h k, i.fresh h rp found, i.fresh k r);
    is_running = λ k r e.
        ground
          (arith, get-put h k (marked rp) m.waiting, i.is_running h rp found, i.is_running k r);
    budget = λ k r e.
        ground (arith, get-put h k (marked rp) m.waiting, i.budget h rp found, i.budget k r);
  }

  live-request_stop : (j : String) → live (request_stop m h rp) j ≡ live m j
  unfolding request_stop
  live-request_stop j = elim (Option-cases (get j m.procs)) [
    | inl e ↦ none-live (request_stop m h rp) j e ∙ sym (none-live m j e)
    | inr (k, e) ↦
        let (r, w, s) = i.managed j k e in
        let (r', w', s') = same_service k r w in
        live-managed (request_stop m h rp) j k r' e w' ∙ ap some s' ∙ sym (live-managed m j k r e w)
  ]

never_again : (rp : RunningProc) (x : Exit) → wants_restart (marked rp) x ≡ false
unfolding wants_restart
never_again rp x = refl

stopped_after :
    (rp : RunningProc) (x : Exit) → status_after (marked rp) x x.relaunch ≡ status_stopped
unfolding status_after wants_restart final_status
stopped_after rp x = refl

-- In a manager in order, `Stop` on a live service ends it, whatever its restart policy and
-- however its process ends; the other services stay as they were, and the manager stays in order.
pub stop-live :
    (m : Manager) (id : String) (svc : Service) (graceful : Bool) (timeout : ℤ) (s : Stopping)
    (j : String)
    → Inv m
    → live m id ≡ some svc
    → let m' = (stop m id graceful timeout s).0 in
      Inv m' × (live m' j ≡ (if str_eq id j then none else live m j))
unfolding stop
stop-live m id svc graceful timeout s j i running =
    let (h, rp, e, w, same, named) = live-some m i id svc running in
    let n = request_stop m h rp in
    let v = request_stop-Inv m i h rp w in
    rw (e, stop)
      (rw (w, stop)
        (
          await_exit-Inv n h s.exit v,
          await_exit-live n h (marked rp) s.exit j v (found_marked m i h rp w)
              ∙ ground (
                arith,
                never_again rp s.exit,
                live-request_stop m i h rp w j,
                named,
                ap (λ (t : Service). t.id) same,
              ),
        ))

-- In a manager in order with the database up, `Stop` on a live service records it as stopped and
-- changes the status of no other record.
pub stop-recorded :
    (m : Manager) (id : String) (svc : Service) (graceful : Bool) (timeout : ℤ) (s : Stopping)
    (j : String)
    → Inv m
    → IsUp m.store
    → live m id ≡ some svc
    → recorded (stop m id graceful timeout s).0.store j
      ≡ (if str_eq id j then some status_stopped else recorded m.store j)
unfolding stop
stop-recorded m id svc graceful timeout s j i up running =
    let (h, rp, e, w, same, named) = live-some m i id svc running in
    let n = request_stop m h rp in
    rw (e, stop)
      (rw (w, stop)
        (await_exit-recorded n h (marked rp) s.exit j up (found_marked m i h rp w)
          ∙ ground (arith, stopped_after rp s.exit, named, ap (λ (t : Service). t.id) same)))

-- In a manager in order, `Stop` on a service that is not live changes nothing and says that it is
-- not running.
pub stop-none :
    (m : Manager) (id : String) (graceful : Bool) (timeout : ℤ) (s : Stopping)
    → Inv m
    → live m id ≡ none
    → stop m id graceful timeout s ≡ (m, some (not_running id))
unfolding stop
stop-none m id graceful timeout s i e = rw (live-none m i id e, stop)
