-- ===== src/Service/Manager/Autostart.antt =====
-- `StartAutostart` of internal/domain/service/manager.go.
use alresia_voltpanel.Prelude.{
  ℕ, String, Bool, true, false, Option, none, some, List, [], ◌∷◌, map, str_eq, keep, if◌then◌else◌,
}
use alresia_voltpanel.Prelude.Dict.{nat_key, string_key}
use alresia_voltpanel.Storage.{ServiceRecord, list_service_records}
use alresia_voltpanel.Service.Entity.{Service, from_record}
use alresia_voltpanel.Service.Topo.{Result as Sort, sorted, cycle, topo_sort}
use alresia_voltpanel.Service.Manager.{
  Manager, Error, system, dependency_cycle, cancelled, ok, err, Launch, Exit, started,
  start_process, await_exit, live,
}

-- One round of the loop of `StartAutostart`: whether the context is done, the answer to the start,
-- and the ends of processes during `HealthCheckDelay`.
pub record Round : Type 0 where
  pub is_done : Bool
  pub launch : Launch
  pub ends : List (ℕ × Exit)

unfoldable pub await_exits : Manager → List (ℕ × Exit) → Manager
unfolding await_exit
await_exits m [] = m
await_exits m ((h, x) ∷ xs) = await_exits (await_exit m h x) xs

unfoldable pub find_service : String → List Service → Option Service
find_service id [] = none
find_service id (s ∷ ss) = elim (find_service id ss) [
  | some t ↦ some t
  | none ↦ if str_eq s.id id then some s else none
]

-- the body of the loop when the context is not done
unfoldable pub autostart_round : List Service → Manager → String → Round → Manager
unfolding live start_process await_exits find_service
autostart_round services m id r = elim (live m id) [
  | some running ↦ m
  | none ↦ elim (find_service id services) [
    | none ↦ m
    | some svc ↦
        (let (m', started) = start_process m svc [] r.launch in
          elim started [ err e ↦ m' | ok _ ↦ await_exits m' r.ends ])
  ]
]

unfoldable pub autostart_loop :
    List Service → (String → Round) → Manager → List String → Manager × Option Error
unfolding autostart_round
autostart_loop services rounds m [] = (m, none)
autostart_loop services rounds m (id ∷ ids) = elim (rounds id).is_done [
  | true ↦ (m, some cancelled)
  | false ↦ autostart_loop services rounds (autostart_round services m id (rounds id)) ids
]

unfoldable pub autostart_services : List ServiceRecord → List Service
autostart_services records = map from_record (keep (λ (r : ServiceRecord). r.autostart) records)

-- from the result of TopoSort on
unfoldable pub autostart_in :
    List Service → (String → Round) → Manager → Sort → Manager × Option Error
unfolding autostart_loop
autostart_in services rounds m (cycle stuck) = (m, some (dependency_cycle stuck))
autostart_in services rounds m (sorted order) = autostart_loop services rounds m order

unfoldable pub autostart_all : (String → Round) → Manager → List Service → Manager × Option Error
unfolding autostart_in topo_sort
autostart_all rounds m [] = (m, none)
autostart_all rounds m (s ∷ ss) = autostart_in (s ∷ ss) rounds m (topo_sort (s ∷ ss))

unfoldable pub start_autostart : Manager → (String → Round) → Manager × Option Error
unfolding autostart_services autostart_all
start_autostart m rounds = elim (list_service_records m.store) [
  | none ↦ (m, some (system "list services"))
  | some records ↦ autostart_all rounds m (autostart_services records)
]
