-- ===== src/Tests/Manager.antt =====
-- internal/domain/service/manager.go with one service that runs.
use mathlib.Core.Option.{none, some}
use alresia_voltpanel.Prelude.{ℕ, ◌≡◌, refl, Bool, true, false, [], ◌∷◌, arith}
use alresia_voltpanel.Prelude.Int.{ℤ, pos}
use alresia_voltpanel.Prelude.Dict.{get, put, nat_key, string_key}
use alresia_voltpanel.Storage.{upsert_service_record}
use alresia_voltpanel.Service.Entity.{Service, StartRequest, to_service, status_stopped}
use alresia_voltpanel.Service.Manager.{
  Manager, RunningProc, launched, Exit, exit_error, clean, live, started, exited, start, await_exit,
  recent_restarts, check_start, not_running,
}
use alresia_voltpanel.Service.Manager.Stop.{Stopping, stop}
use alresia_voltpanel.Service.Manager.Invariant.{Inv}
use alresia_voltpanel.Service.Manager.Exits.{wants_restart, await_exit-live}
use alresia_voltpanel.Service.Manager.Records.{IsUp, recorded, status_after, await_exit-recorded}
use alresia_voltpanel.Service.Manager.Stops.{stop-live, stop-recorded}
use alresia_voltpanel.Service.Manager.Runs.{InOrder, new_manager, starts, run, run-Inv}
use alresia_voltpanel.Service.Manager.Budget.{crashes, crashes_give_up}
use alresia_voltpanel.Service.Manager.Race.{start_both, start_both-orphan}
use alresia_voltpanel.Tests.Service.{web_request, empty_store}

abbrev idle : Manager
idle = new_manager empty_store

abbrev one_up : Manager
one_up = run idle (starts web_request (launched 42 1000) ∷ [])

abbrev web : Service
web = started empty_store (to_service web_request) 42 1000

abbrev web_proc : RunningProc
web_proc = record { svc = web; stop_requested = false; restart_times = [] }

one_up-Inv : Inv one_up
one_up-Inv = (run-Inv empty_store (starts web_request (launched 42 1000) ∷ [])).0

idle-Inv : Inv idle
unfolding run
idle-Inv = (run-Inv empty_store []).0

one_up_at : get "web" one_up.procs ≡ some 0
unfolding run new_manager get start upsert_service_record put to_service
one_up_at = refl

one_up_waits : get 0 one_up.waiting ≡ some web_proc
unfolding run new_manager get start upsert_service_record put to_service
one_up_waits = refl

one_up-live : live one_up "web" ≡ some web
unfolding run new_manager live get start upsert_service_record put to_service
one_up-live = refl

db-IsUp : IsUp one_up.store
unfolding run new_manager start get upsert_service_record
db-IsUp = record { reads = refl; writes = refl }

abbrev crash : ℕ → Exit
crash t = record { wait = exit_error (pos 1); now = t; pruned_at = t; relaunch = launched 43 t }

abbrev gentle : Stopping
gentle = record {
  terminate_error = none;
  ends_after = 10;
  kill_error = none;
  exit = record { wait = clean; now = 2000; pruned_at = 2000; relaunch = launched 9 9 };
}

run-Inv_example : InOrder one_up
run-Inv_example = run-Inv empty_store (starts web_request (launched 42 1000) ∷ [])

await_exit-live_example :
    live (await_exit one_up 0 (crash 2000)) "web"
    ≡ some (started empty_store (exited web_proc (crash 2000)) 43 2000)
unfolding run new_manager started exited wants_restart to_service recent_restarts
await_exit-live_example =
    await_exit-live one_up 0 web_proc (crash 2000) "web" one_up-Inv one_up_waits

await_exit-recorded_example :
    recorded (await_exit one_up 0 (crash 2000)).store "web" ≡ some "running"
unfolding started status_after wants_restart exited to_service recent_restarts
await_exit-recorded_example =
    await_exit-recorded one_up 0 web_proc (crash 2000) "web" db-IsUp one_up_waits

stop-live_example :
    Inv (stop one_up "web" true (pos 0) gentle).0
    × (live (stop one_up "web" true (pos 0) gentle).0 "web" ≡ none)
stop-live_example = stop-live one_up "web" web true (pos 0) gentle "web" one_up-Inv one_up-live

stop-recorded_example :
    recorded (stop one_up "web" true (pos 0) gentle).0.store "web" ≡ some status_stopped
stop-recorded_example =
    stop-recorded one_up "web" web true (pos 0) gentle "web" one_up-Inv db-IsUp one_up-live

crashes_give_up_example :
    live (crashes one_up "web" (crash 2000 ∷ crash 3000 ∷ crash 4000 ∷ [])) "web" ≡ none
unfolding started to_service
crashes_give_up_example =
    crashes_give_up one_up "web" 0 web_proc 2000 2 (crash 2000 ∷ crash 3000 ∷ crash 4000 ∷ [])
      one_up-Inv one_up_at one_up_waits refl refl refl
      (omega arith, omega arith, (omega arith, omega arith, (omega arith, omega arith, tt)))
      (omega arith)

abbrev once_request : StartRequest
once_request = record web_request { restart_policy = "no" }

idle_check : check_start idle once_request ≡ none
unfolding new_manager check_start get
idle_check = refl

abbrev good : Exit
good = record { wait = clean; now = 2000; pruned_at = 2000; relaunch = launched 43 2000 }

start_both-orphan_example :
    let m' =
      await_exit
        (start_both idle once_request once_request (launched 42 1000) (launched 43 1001))
        0
        good in
    (live m' "web" ≡ none)
    × ((rp : RunningProc) × (get 1 m'.waiting ≡ some rp) × (rp.svc.id ≡ "web") × (rp.svc.pid ≡ 43))
    × ((graceful : Bool) (timeout : ℤ) (s : Stopping)
        → stop m' "web" graceful timeout s ≡ (m', some (not_running "web")))
unfolding new_manager
start_both-orphan_example =
    start_both-orphan idle once_request once_request 42 1000 43 1001 good idle_check idle_check refl
      (unfold wants_restart started to_service in refl)
