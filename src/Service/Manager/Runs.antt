-- ===== src/Service/Manager/Runs.antt =====
-- Histories of calls of the manager in manager.go, each call run to its end before the next.
use alresia_voltpanel.Prelude.{
  ℕ, ◌≡◌, refl, String, Bool, true, some, List, [], ◌∷◌, eq_iff, str_eq_refl, ◌∙◌, ◌⊎◌, arith,
  Bool-cases, Option-cases, inl, inr,
}
use alresia_voltpanel.Prelude.Int.{ℤ, pos}
use alresia_voltpanel.Prelude.Dict.{get, nat_key, string_key}
use alresia_voltpanel.Storage.{Store, get_service_record, list_service_records}
use alresia_voltpanel.Storage.Rows.{get_service_record-id}
use alresia_voltpanel.Service.Entity.{Service, StartRequest, from_record}
use alresia_voltpanel.Service.Manager.{
  Manager, Error, Result, ok, err, Launch, Exit, live, start, start_process, await_exit,
}
use alresia_voltpanel.Service.Manager.Stop.{Stopping, stop, restart}
use alresia_voltpanel.Service.Manager.Autostart.{
  Round, await_exits, find_service, autostart_round, autostart_loop, autostart_in, autostart_all,
  start_autostart, autostart_services, autostart_in, autostart_all,
}
use alresia_voltpanel.Service.Manager.Invariant.{Inv, start-Inv, start_process-Inv, await_exit-Inv}
use alresia_voltpanel.Service.Manager.Remembered.{replacement, await_exit-replacement}
use alresia_voltpanel.Service.Manager.Live.{live-some, live-none}
use alresia_voltpanel.Service.Manager.Stops.{stop-live, stop-none}
use alresia_voltpanel.Service.Topo.{Result as Sort, sorted, cycle, topo_sort}

unfoldable pub new_manager : Store → Manager
new_manager s = record { store = s; procs = []; waiting = []; next_handle = 0 }

pub data Call : Type 0 where
  starts : StartRequest → Launch → Call
  ends : ℕ → Exit → Call
  stops : String → Bool → ℤ → Stopping → Call
  restarts : String → Stopping → Launch → Call
  autostarts : (String → Round) → Call

unfoldable pub step : Manager → Call → Manager
step m (starts req l) = (start m req l).0
step m (ends h x) = await_exit m h x
step m (stops id graceful timeout s) = (stop m id graceful timeout s).0
step m (restarts id s l) = (restart m id s l).0
step m (autostarts rounds) = (start_autostart m rounds).0

unfoldable pub run : Manager → List Call → Manager
unfolding step
run m [] = m
run m (c ∷ cs) = run (step m c) cs

new_manager-Inv : (s : Store) → Inv (new_manager s)
unfolding new_manager get
new_manager-Inv s = record {
  managed = λ id h e. cc;
  tracked = λ h rp e. cc;
  fresh = λ h rp e. cc;
  is_running = λ h rp e. cc;
  budget = λ h rp e. cc;
}

stop-Inv :
    (m : Manager) (id : String) (graceful : Bool) (timeout : ℤ) (s : Stopping)
    → Inv m
    → Inv (stop m id graceful timeout s).0
stop-Inv m id graceful timeout s i = elim (Option-cases (live m id)) [
  | inl e ↦ rw (stop-none m id graceful timeout s i e) i
  | inr (svc, e) ↦ (stop-live m id svc graceful timeout s id i e).0
]

restart-Inv :
    (m : Manager) (id : String) (s : Stopping) (l : Launch) → Inv m → Inv (restart m id s l).0
unfolding restart from_record
restart-Inv m id s l i = elim (Option-cases (live m id)) [
  | inr (svc, e) ↦ elim (Option-cases (stop m id true (pos 0) s).1) [
    | inr (e', f) ↦ rw (e, restart) (rw (f, restart) (stop-Inv m id true (pos 0) s i))
    | inl f ↦
        rw (e, restart)
          (rw (f, restart)
            (let (h, rp, g, w, same, named) = live-some m i id svc e in
              let (i', gone) = stop-live m id svc true (pos 0) s id i e in
              start_process-Inv (stop m id true (pos 0) s).0 i' svc [] l
                (live-none (stop m id true (pos 0) s).0 i' svc.id
                  (rw named (gone ∙ ground (arith, str_eq_refl id))))
                (omega arith)))
  ]
  | inl e ↦ elim (Option-cases (get_service_record id m.store)) [
    | inl f ↦ rw (e, restart) (rw (f, restart) i)
    | inr (r, f) ↦
        rw (e, restart)
          (rw (f, restart)
            (start_process-Inv m i (from_record r) [] l
              (live-none m i r.id (rw (get_service_record-id id m.store r f) e)) (omega arith)))
  ]
]

pub Result-cases {ℓ} :
    {A : Type ℓ} (r : Result A) → ((a : A) × (r ≡ ok a)) ⊎ ((e : Error) × (r ≡ err e))
Result-cases (ok a) = inl (a, refl)
Result-cases (err e) = inr (e, refl)

await_exits-Inv : (m : Manager) (xs : List (ℕ × Exit)) → Inv m → Inv (await_exits m xs)
unfolding await_exits
await_exits-Inv m [] i = i
await_exits-Inv m ((h, x) ∷ xs) i = await_exits-Inv (await_exit m h x) xs (await_exit-Inv m h x i)

pub find_service-id :
    (id : String) (ss : List Service) (s : Service) → find_service id ss ≡ some s → s.id ≡ id
unfolding find_service
find_service-id id [] s h = cc
find_service-id id (t ∷ ts) s h = elim (Option-cases (find_service id ts)) [
  | inr (u, e) ↦ find_service-id id ts s (ground (arith, e))
  | inl e ↦ ground (arith, e, eq_iff t.id id)
]

-- What every start of an absent service and every end of a process keeps, `StartAutostart` keeps.
pub autostart_round-Inv :
    (services : List Service) (m : Manager) (id : String) (r : Round)
    → Inv m
    → Inv (autostart_round services m id r)
unfolding autostart_round
autostart_round-Inv services m id r i = elim (Option-cases (live m id)) [
  | inr (running, e) ↦ rw (e, autostart_round) i
  | inl e ↦ elim (Option-cases (find_service id services)) [
    | inl f ↦ rw (e, autostart_round) (rw (f, autostart_round) i)
    | inr (svc, f) ↦
        (let started =
            start_process-Inv m i svc [] r.launch
              (live-none m i svc.id (rw (find_service-id id services svc f) e)) (omega arith) in
          elim (Result-cases (start_process m svc [] r.launch).1) [
            | inl (t, g) ↦
                rw (e, autostart_round)
                  (rw (f, autostart_round)
                    (rw (g, autostart_round) (await_exits-Inv _ r.ends started)))
            | inr (x, g) ↦
                rw (e, autostart_round) (rw (f, autostart_round) (rw (g, autostart_round) started))
          ])
  ]
]

autostart_loop-Inv :
    (services : List Service) (rounds : String → Round) (m : Manager) (ids : List String)
    → Inv m
    → Inv (autostart_loop services rounds m ids).0
unfolding autostart_loop
autostart_loop-Inv services rounds m [] i = i
autostart_loop-Inv services rounds m (id ∷ ids) i = elim (Bool-cases (rounds id).is_done) [
  | inl e ↦ rw (e, autostart_loop) i
  | inr e ↦
      rw (e, autostart_loop)
        (autostart_loop-Inv services rounds (autostart_round services m id (rounds id)) ids
          (autostart_round-Inv services m id (rounds id) i))
]

autostart_in-Inv :
    (services : List Service) (rounds : String → Round) (m : Manager) (r : Sort)
    → Inv m
    → Inv (autostart_in services rounds m r).0
unfolding autostart_in
autostart_in-Inv services rounds m (cycle stuck) i = i
autostart_in-Inv services rounds m (sorted order) i = autostart_loop-Inv services rounds m order i

autostart_all-Inv :
    (rounds : String → Round) (m : Manager) (services : List Service)
    → Inv m
    → Inv (autostart_all rounds m services).0
unfolding autostart_all
autostart_all-Inv rounds m [] i = i
autostart_all-Inv rounds m (s ∷ ss) i = autostart_in-Inv (s ∷ ss) rounds m (topo_sort (s ∷ ss)) i

start_autostart-Inv :
    (m : Manager) (rounds : String → Round) → Inv m → Inv (start_autostart m rounds).0
unfolding start_autostart
start_autostart-Inv m rounds i = elim (Option-cases (list_service_records m.store)) [
  | inl e ↦ rw (e, start_autostart) i
  | inr (records, e) ↦
      rw (e, start_autostart) (autostart_all-Inv rounds m (autostart_services records) i)
]

step-Inv : (m : Manager) (c : Call) → Inv m → Inv (step m c)
unfolding step
step-Inv m (starts req l) i = start-Inv m i req l
step-Inv m (ends h x) i = await_exit-Inv m h x i
step-Inv m (stops id graceful timeout s) i = stop-Inv m id graceful timeout s i
step-Inv m (restarts id s l) i = restart-Inv m id s l i
step-Inv m (autostarts rounds) i = start_autostart-Inv m rounds i

run_from-Inv : (m : Manager) (cs : List Call) → Inv m → Inv (run m cs)
unfolding run
run_from-Inv m [] i = i
run_from-Inv m (c ∷ cs) i = run_from-Inv (step m c) cs (step-Inv m c i)

-- A manager in order, in which the end of any process leaves no other process in its place than the
-- restart rule gives, with the restarts that still count.
abbrev pub InOrder : Manager → Type 0
InOrder m =
    Inv m × ((h : ℕ) (x : Exit) → get m.next_handle (await_exit m h x).waiting ≡ replacement m h x)

-- After any history of starts, ends of processes, stops, restarts and autostarts of a new
-- manager, each call run to its end before the next, each id in `procs` has exactly one process,
-- every process is in `procs` and runs, and it remembers no more restarts than its service may
-- have. When a process ends then, a process takes its place exactly where the restart rule says
-- so and the start succeeds, and it remembers this restart and the earlier ones as far as they
-- lie within the window.
pub run-Inv : (s : Store) (cs : List Call) → InOrder (run (new_manager s) cs)
run-Inv s cs =
    let i = run_from-Inv (new_manager s) cs (new_manager-Inv s) in
    (i, await_exit-replacement (run (new_manager s) cs) i)
