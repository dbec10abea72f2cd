-- ===== src/Service/Manager/Exits.antt =====
-- What the end of a process does, by manager.go's `awaitExit`.
use alresia_voltpanel.Prelude.{
  ℕ, ◌≡◌, String, Bool, true, false, not, ◌&&◌, ◌||◌, Option, none, some, str_eq, eq_iff, ◌∙◌,
  length, arith, if◌then◌else◌,
}
use alresia_voltpanel.Prelude.Int.{is_zero, int_lt}
use alresia_voltpanel.Prelude.Dict.{get, nat_key, string_key}
use alresia_voltpanel.Storage.{Store}
use alresia_voltpanel.Service.Entity.{Service, status_stopped, status_failed}
use alresia_voltpanel.Service.Manager.{
  RunningProc, Manager, Launch, refused, launched, Exit, started, start_process, live, settle,
  carry_out, leave_as, relaunch, exited, recent_restarts, leave, again, verdict, await_exit,
  exit_code, should_restart,
}
use alresia_voltpanel.Service.Manager.Invariant.{Inv, removed, removed-Inv, removed_absent}
use alresia_voltpanel.Service.Manager.Live.{
  live-persist, live-start_process, live-removed, none-live,
}

-- The restart rule: nobody asked for the stop, the policy is `always`, or `on-failure` after an exit
-- code other than 0, and the restarts of the window are within the service's limit.
unfoldable pub wants_restart : RunningProc → Exit → Bool
unfolding is_zero
wants_restart rp x =
    not rp.stop_requested
    && (str_eq rp.svc.restart_policy "always"
        || str_eq rp.svc.restart_policy "on-failure" && not (is_zero (exit_code x.wait)))
    && not (int_lt rp.svc.max_restarts (length (recent_restarts rp x)))

-- The service after an attempt to start it.
abbrev pub after_launch : Store → Service → Launch → Option Service
after_launch s svc (refused e) = none
after_launch s svc (launched pid now) = some (started s svc pid now)

-- The status when the process is not started again.
unfoldable pub final_status : RunningProc → Exit → String
unfolding is_zero
final_status rp x =
    if rp.stop_requested
    then status_stopped
    else if is_zero (exit_code x.wait) && not (str_eq rp.svc.restart_policy "always")
    then status_stopped
    else status_failed

pub verdict-wants_restart :
    (rp : RunningProc) (x : Exit)
    → verdict rp x ≡ (if wants_restart rp x then again else leave (final_status rp x))
unfolding verdict wants_restart final_status should_restart
verdict-wants_restart rp x = ground arith

module _ (m : Manager) (rp : RunningProc) (x : Exit) where
  live-leave_as : (status : String) (j : String) → live (leave_as m rp x status) j ≡ live m j
  unfolding leave_as
  live-leave_as status j = live-persist m x.now _ j

  live-relaunch :
      (l : Launch) (j : String)
      → Inv m
      → get rp.svc.id m.procs ≡ none
      → live (relaunch m rp x l) j
        ≡ (if str_eq rp.svc.id j then after_launch m.store (exited rp x) l else live m j)
  unfolding relaunch start_process exited
  live-relaunch (refused r) j i absent =
      live-leave_as status_failed j
      ∙ ground (arith, eq_iff rp.svc.id j, none-live m rp.svc.id absent)
  live-relaunch (launched pid now) j i absent =
      live-start_process m i (exited rp x) (recent_restarts rp x) pid now j

-- In a manager in order, after a process that it waits for has ended, its service is live again
-- exactly when the restart rule says so and the start succeeds; every other service is as live as
-- before.
pub await_exit-live :
    (m : Manager) (h : ℕ) (rp : RunningProc) (x : Exit) (j : String)
    → Inv m
    → get h m.waiting ≡ some rp
    → live (await_exit m h x) j ≡ (
        if str_eq rp.svc.id j
        then if wants_restart rp x then after_launch m.store (exited rp x) x.relaunch else none
        else live m j)
unfolding await_exit settle carry_out
await_exit-live m h rp x j i found =
    rw (found, await_exit) (rw (verdict-wants_restart rp x) (split (wants_restart rp x)))
  where
    n : Manager
    n = removed m i h rp found

    split :
        (b : Bool)
        → live (carry_out n rp x (if b then again else leave (final_status rp x))) j ≡ (
            if str_eq rp.svc.id j
            then if b then after_launch m.store (exited rp x) x.relaunch else none
            else live m j)
    split true =
        live-relaunch n rp x x.relaunch j (removed-Inv m i h rp found)
          (removed_absent m i h rp found)
        ∙ ground (arith, live-removed m i h rp found j)
    split false = live-leave_as n rp x (final_status rp x) j ∙ live-removed m i h rp found j
