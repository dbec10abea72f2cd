-- ===== src/Service/Manager/Invariant.antt =====
-- What manager.go's operations keep, called one after the other: `procs` and the goroutines that
-- wait for a process agree, so that each id has one process at most and no process is lost.
use alresia_voltpanel.Prelude.{
  ℕ, suc, ◌≤◌, ◌<◌, ◌≡◌, refl, String, false, none, some, List, [], str_eq, eq_iff, length, arith,
  Bool-cases, Option-cases, inl, inr,
}
use alresia_voltpanel.Prelude.Int.{magnitude}
use alresia_voltpanel.Prelude.Dict.{
  get, put, remove, get-put, get-remove, nat_key, string_key, nat_iff,
}
use alresia_voltpanel.Service.Entity.{
  Service, StartRequest, to_service, status_running, status_failed,
}
use alresia_voltpanel.Service.Manager.{
  RunningProc, Manager, Launch, refused, launched, Exit, persist, started, start_process,
  check_start, start, settle, carry_out, leave_as, relaunch, exited, recent_restarts, Verdict,
  leave, again, verdict, await_exit,
}

abbrev pub WithinBudget : RunningProc → Type 0
WithinBudget rp = length rp.restart_times ≤ magnitude rp.svc.max_restarts

pub record Inv (m : Manager) : Type 0 where
  -- `procs` leads to processes of that id
  pub managed :
      (id : String) (h : ℕ)
      → get id m.procs ≡ some h
      → (rp : RunningProc) × (get h m.waiting ≡ some rp) × (rp.svc.id ≡ id)
  -- every process is in `procs`
  pub tracked :
      (h : ℕ) (rp : RunningProc) → get h m.waiting ≡ some rp → get rp.svc.id m.procs ≡ some h
  pub fresh : (h : ℕ) (rp : RunningProc) → get h m.waiting ≡ some rp → h < m.next_handle
  pub is_running :
      (h : ℕ) (rp : RunningProc) → get h m.waiting ≡ some rp → rp.svc.status ≡ status_running
  pub budget : (h : ℕ) (rp : RunningProc) → get h m.waiting ≡ some rp → WithinBudget rp

pub persist-procs :
    (m : Manager) (now : ℕ) (svc : Service)
    → ((persist m now svc).procs ≡ m.procs)
      × ((persist m now svc).waiting ≡ m.waiting)
      × ((persist m now svc).next_handle ≡ m.next_handle)
unfolding persist
persist-procs m now svc = ground arith

abbrev pub launched_proc : Manager → Service → List ℕ → ℕ → ℕ → RunningProc
launched_proc m svc times pid now = record {
  svc = started m.store svc pid now;
  stop_requested = false;
  restart_times = times;
}

-- What a start that succeeds does to the fields of the manager.
pub start_process-fields :
    (m : Manager) (svc : Service) (times : List ℕ) (pid now : ℕ)
    → let m' = (start_process m svc times (launched pid now)).0 in
      (m'.procs ≡ put svc.id m.next_handle m.procs)
      × (m'.waiting ≡ put m.next_handle (launched_proc m svc times pid now) m.waiting)
      × (m'.next_handle ≡ suc m.next_handle)
unfolding start_process
start_process-fields m svc times pid now =
    persist-procs
      (record m {
        procs = put svc.id m.next_handle m.procs;
        waiting = put m.next_handle (launched_proc m svc times pid now) m.waiting;
        next_handle = suc m.next_handle;
      })
      now (started m.store svc pid now)

pub persist-Inv : (m : Manager) (now : ℕ) (svc : Service) → Inv m → Inv (persist m now svc)
persist-Inv m now svc i =
    let (p, w, n) = persist-procs m now svc in
    record {
      managed = λ id h. rw (p, w) (i.managed id h);
      tracked = λ h rp. rw (p, w) (i.tracked h rp);
      fresh = λ h rp. rw (w, n) (i.fresh h rp);
      is_running = λ h rp. rw w (i.is_running h rp);
      budget = λ h rp. rw w (i.budget h rp);
    }

module _ (m : Manager) (i : Inv m) where
  module _ (rp : RunningProc) (absent : get rp.svc.id m.procs ≡ none)
      (runs : rp.svc.status ≡ status_running) (fits : WithinBudget rp) where
    abbrev added : Manager
    added = record m {
      procs = put rp.svc.id m.next_handle m.procs;
      waiting = put m.next_handle rp m.waiting;
      next_handle = suc m.next_handle;
    }

    added_managed :
        (id : String) (h : ℕ)
        → get id added.procs ≡ some h
        → (r : RunningProc) × (get h added.waiting ≡ some r) × (r.svc.id ≡ id)
    added_managed id h e = elim (Bool-cases (str_eq rp.svc.id id)) [
      | inl s ↦ (
        rp,
        ground (
          arith,
          s,
          get-put rp.svc.id id m.next_handle m.procs,
          get-put m.next_handle h rp m.waiting,
          nat_iff m.next_handle h,
        ),
        (eq_iff rp.svc.id id).0 s,
      )
      | inr s ↦
          let (r, w, same) =
            i.managed id h (ground (arith, s, get-put rp.svc.id id m.next_handle m.procs)) in
          (
            r,
            ground (
              arith,
              w,
              i.fresh h r w,
              get-put m.next_handle h rp m.waiting,
              nat_iff m.next_handle h,
            ),
            same,
          )
    ]

    added-Inv : Inv added
    added-Inv = record {
      managed = λ id h e. added_managed id h e;
      tracked = λ h r e. ground (
        arith,
        get-put rp.svc.id r.svc.id m.next_handle m.procs,
        get-put m.next_handle h rp m.waiting,
        nat_iff m.next_handle h,
        eq_iff rp.svc.id r.svc.id,
        i.tracked h r,
        i.fresh h r,
      );
      fresh = λ h r e.
          ground
            (arith, get-put m.next_handle h rp m.waiting, nat_iff m.next_handle h, i.fresh h r);
      is_running = λ h r e.
          ground (
            arith,
            get-put m.next_handle h rp m.waiting,
            nat_iff m.next_handle h,
            i.is_running h r,
          );
      budget = λ h r e.
          ground
            (arith, get-put m.next_handle h rp m.waiting, nat_iff m.next_handle h, i.budget h r);
    }

  module _ (h : ℕ) (rp : RunningProc) (found : get h m.waiting ≡ some rp) where
    -- what the locked part of `awaitExit` leaves
    abbrev pub removed : Manager
    removed = record m { procs = remove rp.svc.id m.procs; waiting = remove h m.waiting }

    removed_managed :
        (id : String) (k : ℕ)
        → get id removed.procs ≡ some k
        → (r : RunningProc) × (get k removed.waiting ≡ some r) × (r.svc.id ≡ id)
    removed_managed id k e =
        let (r, w, same) = i.managed id k (ground (arith, get-remove rp.svc.id id m.procs)) in
        (
          r,
          ground (
            arith,
            w,
            same,
            found,
            get-remove h k m.waiting,
            get-remove rp.svc.id id m.procs,
            nat_iff h k,
            eq_iff rp.svc.id id,
          ),
          same,
        )

    pub removed-Inv : Inv removed
    removed-Inv = record {
      managed = removed_managed;
      tracked = λ k r e. ground (
        arith,
        get-remove h k m.waiting,
        nat_iff h k,
        i.tracked k r,
        i.tracked h rp found,
        get-remove rp.svc.id r.svc.id m.procs,
        eq_iff rp.svc.id r.svc.id,
      );
      fresh = λ k r e. ground (arith, get-remove h k m.waiting, i.fresh k r);
      is_running = λ k r e. ground (arith, get-remove h k m.waiting, i.is_running k r);
      budget = λ k r e. ground (arith, get-remove h k m.waiting, i.budget k r);
    }

    pub removed_absent : get rp.svc.id removed.procs ≡ none
    removed_absent =
        ground (arith, get-remove rp.svc.id rp.svc.id m.procs, eq_iff rp.svc.id rp.svc.id)

  pub start_process-Inv :
      (svc : Service) (times : List ℕ) (l : Launch)
      → get svc.id m.procs ≡ none
      → length times ≤ magnitude svc.max_restarts
      → Inv (start_process m svc times l).0
  unfolding start_process started
  start_process-Inv svc times (refused e) absent fits = i
  start_process-Inv svc times (launched pid now) absent fits = persist-Inv _ now _ (
      added-Inv
        (record {
          svc = started m.store svc pid now;
          stop_requested = false;
          restart_times = times;
        })
        absent refl fits)

  pub start-Inv : (req : StartRequest) (l : Launch) → Inv (start m req l).0
  unfolding start check_start to_service
  start-Inv req l = elim (Option-cases (get req.id m.procs)) [
    | inr (h, e) ↦ rw (e, start) i
    | inl e ↦ elim (Bool-cases (str_eq req.command "")) [
      | inl c ↦ rw (e, c, start) i
      | inr c ↦ rw (e, c, start) (start_process-Inv (to_service req) [] l e (omega arith))
    ]
  ]

again_budget :
    (rp : RunningProc) (x : Exit)
    → verdict rp x ≡ again
    → length (recent_restarts rp x) ≤ magnitude rp.svc.max_restarts
unfolding verdict
again_budget rp x v = ground arith

leave_as-Inv :
    (m : Manager) (rp : RunningProc) (x : Exit) (status : String)
    → Inv m
    → Inv (leave_as m rp x status)
unfolding leave_as
leave_as-Inv m rp x status i = persist-Inv m x.now _ i

relaunch-Inv :
    (m : Manager) (rp : RunningProc) (x : Exit) (l : Launch)
    → Inv m
    → get rp.svc.id m.procs ≡ none
    → length (recent_restarts rp x) ≤ magnitude rp.svc.max_restarts
    → Inv (relaunch m rp x l)
unfolding relaunch exited start_process
relaunch-Inv m rp x (refused e) i absent fits = leave_as-Inv m rp x status_failed i
relaunch-Inv m rp x (launched pid now) i absent fits =
    start_process-Inv m i (exited rp x) (recent_restarts rp x) (launched pid now) absent fits

carry_out-Inv :
    (m : Manager) (rp : RunningProc) (x : Exit) (v : Verdict)
    → verdict rp x ≡ v
    → Inv m
    → get rp.svc.id m.procs ≡ none
    → Inv (carry_out m rp x v)
unfolding carry_out
carry_out-Inv m rp x (leave status) e i absent = leave_as-Inv m rp x status i
carry_out-Inv m rp x again e i absent =
    relaunch-Inv m rp x x.relaunch i absent (again_budget rp x e)

-- The end of a process, whatever its service's policy, keeps the manager in order.
pub settle-Inv :
    (m : Manager) (rp : RunningProc) (x : Exit)
    → Inv m
    → get rp.svc.id m.procs ≡ none
    → Inv (settle m rp x)
unfolding settle
settle-Inv m rp x i absent = carry_out-Inv m rp x (verdict rp x) refl i absent

pub await_exit-Inv : (m : Manager) (h : ℕ) (x : Exit) → Inv m → Inv (await_exit m h x)
unfolding await_exit
await_exit-Inv m h x i = elim (Option-cases (get h m.waiting)) [
  | inl e ↦ rw (e, await_exit) i
  | inr (rp, e) ↦
      rw (e, await_exit)
        (settle-Inv (removed m i h rp e) rp x (removed-Inv m i h rp e) (removed_absent m i h rp e))
]
