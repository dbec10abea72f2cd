-- ===== src/Service/Manager/Budget.antt =====
-- How often manager.go restarts a service that keeps crashing.
use alresia_voltpanel.Prelude.{
  ℕ, suc, ◌+◌, ◌≤◌, ◌<◌, ◌≡◌, refl, ap, String, true, none, some, List, [], ◌∷◌, ◌++◌, str_eq,
  eq_iff, str_eq_refl, ◌⊎◌, length, length-append, keep, ltb, arith, Bool-cases, inl, inr,
}
use alresia_voltpanel.Prelude.Int.{ℤ, pos, is_positive, magnitude}
use alresia_voltpanel.Prelude.Dict.{get, get-put, nat_key, string_key}
use alresia_voltpanel.Service.Entity.{Service}
use alresia_voltpanel.Service.Manager.{
  RunningProc, Manager, Launch, refused, launched, Exit, live, start_process, await_exit, settle,
  carry_out, relaunch, exited, started, recent_restarts, prune_restart_window,
}
use alresia_voltpanel.Service.Manager.Invariant.{
  Inv, await_exit-Inv, removed, launched_proc, start_process-fields,
}
use alresia_voltpanel.Service.Manager.Live.{live-none}
use alresia_voltpanel.Service.Manager.Exits.{await_exit-live, wants_restart, verdict-wants_restart}

-- The ends of the process of one service, one after the other.
unfoldable pub crashes : Manager → String → List Exit → Manager
crashes m id [] = m
crashes m id (x ∷ xs) =
    crashes (elim (get id m.procs) [ none ↦ m | some h ↦ await_exit m h x ]) id xs

-- From `start` on, every end lies within one window.
abbrev pub AllWithin : ℕ → ℤ → List Exit → Type 0
AllWithin start window [] = Unit {0}
AllWithin start window (x ∷ xs) =
    (start ≤ x.now) × (x.pruned_at < start + magnitude window) × AllWithin start window xs

abbrev From : ℕ → List ℕ → Type 0
From start [] = Unit {0}
From start (t ∷ ts) = (start ≤ t) × From start ts

From-snoc : (start t : ℕ) (ts : List ℕ) → From start ts → start ≤ t → From start (ts ++ t ∷ [])
From-snoc start t [] f h = (h, tt)
From-snoc start t (u ∷ us) f h = (f.0, From-snoc start t us f.1 h)

-- The window forgets no restart.
keep-From :
    (start now w : ℕ) (ts : List ℕ)
    → From start ts
    → now < start + w
    → keep (λ t. ltb now (t + w)) ts ≡ ts
keep-From start now w [] f h = refl
keep-From start now w (t ∷ ts) f h = ground (arith, keep-From start now w ts f.1 h)

prune-From :
    (start now : ℕ) (window : ℤ) (ts : List ℕ)
    → is_positive window ≡ true
    → From start ts
    → now < start + magnitude window
    → prune_restart_window ts window now ≡ ts
unfolding prune_restart_window
prune-From start now window ts p f h = rw p (keep-From start now (magnitude window) ts f h)

pub start_process-entry :
    (m : Manager) (svc : Service) (times : List ℕ) (pid now : ℕ)
    → let m' = (start_process m svc times (launched pid now)).0 in
      (get svc.id m'.procs ≡ some m.next_handle)
      × (get m.next_handle m'.waiting ≡ some (launched_proc m svc times pid now))
start_process-entry m svc times pid now =
    let (p, w, n) = start_process-fields m svc times pid now in
    (
      rw p (ground (arith, get-put svc.id svc.id m.next_handle m.procs, str_eq_refl svc.id)),
      rw w (
          ground (
            arith,
            get-put m.next_handle m.next_handle (launched_proc m svc times pid now) m.waiting,
          )),
    )

pub await_exit-again :
    (m : Manager) (i : Inv m) (h : ℕ) (rp : RunningProc) (found : get h m.waiting ≡ some rp)
    (x : Exit) (pid now : ℕ)
    → wants_restart rp x ≡ true
    → x.relaunch ≡ launched pid now
    → await_exit m h x
      ≡ (start_process
          (removed m i h rp found)
          (exited rp x)
          (recent_restarts rp x)
          (launched pid now)).0
unfolding await_exit settle carry_out relaunch start_process
await_exit-again m i h rp found x pid now w l =
    rw (found, await_exit) (rw (verdict-wants_restart rp x) (rw w (rw l)))

pub Launch-cases :
    (l : Launch)
    → ((e : String) × (l ≡ refused e)) ⊎ ((pid : ℕ) × (now : ℕ) × (l ≡ launched pid now))
Launch-cases (refused e) = inl (e, refl)
Launch-cases (launched pid now) = inr (pid, now, refl)

module _ (start : ℕ) (id : String) (limit : ℕ) (window : ℤ)
    (looks_back : is_positive window ≡ true) where
  -- The service is not live, or its process has used up `k` restarts.
  record Used (m : Manager) (k h : ℕ) (rp : RunningProc) : Type 0 where
    inv : Inv m
    at : get id m.procs ≡ some h
    waits : get h m.waiting ≡ some rp
    spent : length rp.restart_times ≡ k
    recent : From start rp.restart_times
    most : rp.svc.max_restarts ≡ pos limit
    span : rp.svc.restart_window ≡ window

  module _ (m : Manager) (k h : ℕ) (rp : RunningProc) (x : Exit) (u : Used m k h rp)
      (from : start ≤ x.now) (within : x.pruned_at < start + magnitude window) where
    same_id : str_eq rp.svc.id id ≡ true
    same_id =
        let (r, w, s) = u.inv.managed id h u.at in
        ground (arith, u.waits, w, s, eq_iff rp.svc.id id)

    recents : recent_restarts rp x ≡ rp.restart_times ++ x.now ∷ []
    unfolding recent_restarts
    recents = rw u.span (
        prune-From start x.pruned_at window (rp.restart_times ++ x.now ∷ []) looks_back
          (From-snoc start x.now rp.restart_times u.recent from) within)

    recents_length : length (recent_restarts rp x) ≡ suc k
    recents_length =
        omega (arith, ap length recents, length-append rp.restart_times (x.now ∷ []), u.spent)

    under_limit : wants_restart rp x ≡ true → k < limit
    unfolding wants_restart
    under_limit w = ground (arith, u.most, recents_length)

    next_used :
        (pid now : ℕ)
        → wants_restart rp x ≡ true
        → x.relaunch ≡ launched pid now
        → (h' : ℕ) × (rp' : RunningProc) × Used (await_exit m h x) (suc k) h' rp'
    unfolding exited started
    next_used pid now w l =
        let n = removed m u.inv h rp u.waits in
        let times = recent_restarts rp x in
        let again = await_exit-again m u.inv h rp u.waits x pid now w l in
        let (p, q) = start_process-entry n (exited rp x) times pid now in
        (
          m.next_handle,
          launched_proc n (exited rp x) times pid now,
          record {
            inv = await_exit-Inv m h x u.inv;
            at = rw (again, ← (eq_iff rp.svc.id id).0 same_id) p;
            waits = rw again q;
            spent = recents_length;
            recent = rw recents (From-snoc start x.now rp.restart_times u.recent from);
            most = u.most;
            span = u.span;
          },
        )

    crash :
        (live (await_exit m h x) id ≡ none)
        ⊎ ((k < limit) × (h' : ℕ) × (rp' : RunningProc) × Used (await_exit m h x) (suc k) h' rp')
    crash =
        let shown = await_exit-live m h rp x id u.inv u.waits in
        elim (Bool-cases (wants_restart rp x)) [
          | inr w ↦ inl (ground (arith, shown, w, same_id))
          | inl w ↦ elim (Launch-cases x.relaunch) [
            | inl (e, l) ↦ inl (ground (arith, shown, w, same_id, l))
            | inr (pid, now, l) ↦
                (let (h', rp', u') = next_used pid now w l in inr (under_limit w, h', rp', u'))
          ]
        ]

  crashes-none :
      (m : Manager) (xs : List Exit) → Inv m → live m id ≡ none → live (crashes m id xs) id ≡ none
  unfolding crashes
  crashes-none m [] i e = e
  crashes-none m (x ∷ xs) i e = rw (live-none m i id e) (crashes-none m xs i e)

  crashes-Used :
      (m : Manager) (k h : ℕ) (rp : RunningProc) (xs : List Exit)
      → Used m k h rp
      → AllWithin start window xs
      → limit < k + length xs
      → live (crashes m id xs) id ≡ none
  unfolding crashes
  crashes-Used m k h rp [] u a b =
      absurd (omega (arith, u.inv.budget h rp u.waits, u.spent, ap magnitude u.most))
  crashes-Used m k h rp (x ∷ xs) u a b = elim (crash m k h rp x u a.0 a.1) [
    | inl e ↦ rw (u.at, crashes) (crashes-none (await_exit m h x) xs (await_exit-Inv m h x u.inv) e)
    | inr (l, h', rp', u') ↦
        rw (u.at, crashes) (crashes-Used (await_exit m h x) (suc k) h' rp' xs u' a.2 (omega arith))
  ]

-- In a manager in order, a running service without earlier restarts, with a limit that is not
-- negative and a positive window, whose process ends more often within one window than its limit
-- of restarts is given up, whatever its policy and exit codes: afterwards it is not live.
pub crashes_give_up :
    (m : Manager) (id : String) (h : ℕ) (rp : RunningProc) (start limit : ℕ) (xs : List Exit)
    → Inv m
    → get id m.procs ≡ some h
    → get h m.waiting ≡ some rp
    → rp.restart_times ≡ []
    → rp.svc.max_restarts ≡ pos limit
    → is_positive rp.svc.restart_window ≡ true
    → AllWithin start rp.svc.restart_window xs
    → limit < length xs
    → live (crashes m id xs) id ≡ none
crashes_give_up m id h rp start limit xs i at waits fresh most w a l =
    crashes-Used start id limit rp.svc.restart_window w m 0 h rp xs
      (record {
        inv = i;
        at = at;
        waits = waits;
        spent = ap length fresh;
        recent = rw fresh tt;
        most = most;
        span = refl;
      })
      a (omega arith)
