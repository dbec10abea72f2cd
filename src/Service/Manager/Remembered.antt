-- ===== src/Service/Manager/Remembered.antt =====
-- Which restarts a process that manager.go starts again remembers.
use alresia_voltpanel.Prelude.{
  false, String, ℕ, ◌+◌, ◌≡◌, ◌∙◌, refl, Option, none, some, List, [], ◌∷◌, ◌++◌, keep, ltb, arith,
  Bool-cases, Option-cases, inl, inr, if◌then◌else◌,
}
use alresia_voltpanel.Prelude.Int.{is_positive, magnitude}
use alresia_voltpanel.Prelude.Dict.{get, get-remove, nat_key, string_key}
use alresia_voltpanel.Storage.{Store}
use alresia_voltpanel.Service.Entity.{default_restart_window, status_failed}
use alresia_voltpanel.Service.Manager.{
  RunningProc, Manager, Launch, refused, launched, Exit, started, start_process, exited,
  recent_restarts, prune_restart_window, settle, carry_out, relaunch, leave_as, await_exit,
}
use alresia_voltpanel.Service.Manager.Invariant.{Inv, removed, persist-procs}
use alresia_voltpanel.Service.Manager.Exits.{final_status, wants_restart, verdict-wants_restart}
use alresia_voltpanel.Service.Manager.Budget.{start_process-entry, Launch-cases}

-- The instants of restarts that are remembered: the earlier ones and this one, as far as they lie
-- within the window of the service, or of a minute where that is not positive.
abbrev pub remembered : RunningProc → Exit → List ℕ
remembered rp x =
    let window = rp.svc.restart_window in
    let span = if is_positive window then magnitude window else magnitude default_restart_window in
    keep (λ t. ltb x.pruned_at (t + span)) (rp.restart_times ++ x.now ∷ [])

abbrev relaunched : Store → RunningProc → Exit → Launch → Option RunningProc
relaunched s rp x (refused e) = none
relaunched s rp x (launched pid now) = some (record {
  svc = started s (exited rp x) pid now;
  stop_requested = false;
  restart_times = remembered rp x;
})

-- The process that takes the place of `h` when it ends.
abbrev pub replacement : Manager → ℕ → Exit → Option RunningProc
replacement m h x = elim (get h m.waiting) [
  | none ↦ none
  | some rp ↦ if wants_restart rp x then relaunched m.store rp x x.relaunch else none
]

remembered_lem : (rp : RunningProc) (x : Exit) → recent_restarts rp x ≡ remembered rp x
unfolding recent_restarts prune_restart_window
remembered_lem rp x = elim (Bool-cases (is_positive rp.svc.restart_window)) [
  | inl e ↦ rw e refl
  | inr e ↦ rw e refl
]

module _ (m : Manager) (i : Inv m) (h : ℕ) (x : Exit) where
  nothing_next : get m.next_handle m.waiting ≡ none
  nothing_next = elim (Option-cases (get m.next_handle m.waiting)) [
    | inl e ↦ e
    | inr (rp, e) ↦ absurd (omega (arith, i.fresh m.next_handle rp e))
  ]

  module _ (rp : RunningProc) (found : get h m.waiting ≡ some rp) where
    abbrev gone : Manager
    gone = removed m i h rp found

    gone_next : get m.next_handle gone.waiting ≡ none
    gone_next = get-remove h m.next_handle m.waiting ∙ ground (arith, nothing_next)

    left_next : (status : String) → get m.next_handle (leave_as gone rp x status).waiting ≡ none
    unfolding leave_as
    left_next status =
        let (p, w, n) = persist-procs gone x.now (record (exited rp x) { status = status }) in
        rw w gone_next

    settled_next :
        get m.next_handle (settle gone rp x).waiting
        ≡ (if wants_restart rp x then relaunched m.store rp x x.relaunch else none)
    unfolding settle carry_out relaunch start_process
    settled_next = elim (Bool-cases (wants_restart rp x)) [
      | inr w ↦ rw (verdict-wants_restart rp x) (rw w (left_next (final_status rp x)))
      | inl w ↦ elim (Launch-cases x.relaunch) [
        | inl (e, l) ↦ rw (verdict-wants_restart rp x) (rw w (rw l (left_next status_failed)))
        | inr (pid, now, l) ↦ rw (verdict-wants_restart rp x) (
            rw w (
              rw l (
                (start_process-entry gone (exited rp x) (recent_restarts rp x) pid now).1
                ∙ rw (remembered_lem rp x) refl)))
      ]
    ]

  pub await_exit-replacement : get m.next_handle (await_exit m h x).waiting ≡ replacement m h x
  unfolding await_exit
  await_exit-replacement = elim (Option-cases (get h m.waiting)) [
    | inl e ↦ rw (e, await_exit, replacement) nothing_next
    | inr (rp, e) ↦ rw (e, await_exit, replacement) (settled_next rp e)
  ]
