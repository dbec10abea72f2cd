-- ===== src/Service/Manager/Startup.antt =====
-- `StartAutostart` of manager.go: which services it leaves running.
use alresia_voltpanel.Prelude.{
  ℕ, ◌≡◌, refl, ap, String, true, false, some, List, [], ◌∷◌, map, str_eq, eq_iff, ◌∙◌, arith, elem,
  distinct, Bool-cases, Option-cases, inl, inr,
}
use alresia_voltpanel.Storage.{ServiceRecord, list_service_records}
use alresia_voltpanel.Service.Entity.{Service}
use alresia_voltpanel.Service.Manager.{
  Manager, Launch, refused, launched, live, start_process, started,
}
use alresia_voltpanel.Service.Manager.Autostart.{
  Round, await_exits, find_service, autostart_round, autostart_loop, autostart_services,
  autostart_in, autostart_all, start_autostart,
}
use alresia_voltpanel.Service.Manager.Invariant.{Inv}
use alresia_voltpanel.Service.Manager.Live.{live-start_process}
use alresia_voltpanel.Service.Manager.Runs.{autostart_round-Inv, find_service-id, Result-cases}
use alresia_voltpanel.Service.Topo.{DepNode, sorted, ids, topo_sort}
use alresia_voltpanel.Service.Topo.Order.{topo_sort_nodes-sorted}
use alresia_voltpanel.Service.Topo.Cycles.{IsRank, topo_sort_nodes_iff}

abbrev pub IsLive : Manager → String → Type 0
IsLive m v = (s : Service) × (live m v ≡ some s)

module _ (m : Manager) (i : Inv m) (svc : Service) (v : String) where
  start_process-keeps : (l : Launch) → IsLive m v → IsLive (start_process m svc [] l).0 v
  unfolding start_process
  start_process-keeps (refused e) h = h
  start_process-keeps (launched pid now) (s, h) = elim (Bool-cases (str_eq svc.id v)) [
    | inl e ↦ (started m.store svc pid now, live-start_process m i svc [] pid now v ∙ rw e refl)
    | inr e ↦ (s, live-start_process m i svc [] pid now v ∙ rw e h)
  ]

module _ (services : List Service) (m : Manager) (i : Inv m) (v : String) where
  -- A round in which no process ends keeps what is live, whatever becomes of its own launch.
  autostart_round-keeps :
      (id : String) (r : Round)
      → r.ends ≡ []
      → IsLive m v
      → IsLive (autostart_round services m id r) v
  unfolding autostart_round await_exits
  autostart_round-keeps id r quiet h = elim (Option-cases (live m id)) [
    | inr (running, e) ↦ rw (e, autostart_round) h
    | inl e ↦ elim (Option-cases (find_service id services)) [
      | inl f ↦ rw (e, autostart_round) (rw (f, autostart_round) h)
      | inr (svc, f) ↦
          (let kept = start_process-keeps m i svc v r.launch h in
            elim (Result-cases (start_process m svc [] r.launch).1) [
              | inl (t, g) ↦
                  rw (e, autostart_round)
                    (rw (f, autostart_round) (rw (g, autostart_round) (rw quiet kept)))
              | inr (x, g) ↦
                  rw (e, autostart_round) (rw (f, autostart_round) (rw (g, autostart_round) kept))
            ])
    ]
  ]

  autostart_round-starts :
      (r : Round) (svc : Service) (pid now : ℕ)
      → r.ends ≡ []
      → r.launch ≡ launched pid now
      → find_service v services ≡ some svc
      → IsLive (autostart_round services m v r) v
  unfolding autostart_round await_exits start_process
  autostart_round-starts r svc pid now quiet up found = elim (Option-cases (live m v)) [
    | inr (running, e) ↦ rw (e, autostart_round) (running, e)
    | inl e ↦
        rw (e, autostart_round)
          (rw (found, autostart_round)
            (rw up (
              rw quiet (
                started m.store svc pid now,
                ap (λ l. live (start_process m svc [] l).0 v) up
                    ∙ live-start_process m i svc [] pid now v
                    ∙ ground (arith, eq_iff svc.id v, find_service-id v services svc found),
              ))))
  ]

module _ (services : List Service) (rounds : String → Round) (v : String) (svc : Service)
    (pid now : ℕ) (found : find_service v services ≡ some svc)
    (up : (rounds v).launch ≡ launched pid now)
    (goes_on : (id : String) → (rounds id).is_done ≡ false)
    (quiet : (id : String) → (rounds id).ends ≡ []) where
  loop-keeps :
      (m : Manager) (order : List String)
      → Inv m
      → IsLive m v
      → IsLive (autostart_loop services rounds m order).0 v
  unfolding autostart_loop
  loop-keeps m [] i h = h
  loop-keeps m (id ∷ order) i h =
      rw (goes_on id, autostart_loop)
        (loop-keeps (autostart_round services m id (rounds id)) order
          (autostart_round-Inv services m id (rounds id) i)
          (autostart_round-keeps services m i v id (rounds id) (quiet id) h))

  loop-starts :
      (m : Manager) (order : List String)
      → Inv m
      → elem v order ≡ true
      → IsLive (autostart_loop services rounds m order).0 v
  unfolding autostart_loop
  loop-starts m [] i h = cc
  loop-starts m (id ∷ order) i h = elim (Bool-cases (str_eq id v)) [
    | inl e ↦
        rw (goes_on id, autostart_loop)
          (loop-keeps (autostart_round services m id (rounds id)) order
            (autostart_round-Inv services m id (rounds id) i)
            (rw ((eq_iff id v).0 e)
              (autostart_round-starts services m i v (rounds v) svc pid now (quiet v) up found)))
    | inr e ↦
        rw (goes_on id, autostart_loop)
          (loop-starts (autostart_round services m id (rounds id)) order
            (autostart_round-Inv services m id (rounds id) i) (ground (arith, h, e)))
  ]

abbrev pub node : Service → DepNode
node s = record { id = s.id; depends_on = s.depends_on }

find_service-elem :
    (v : String) (services : List Service)
    → elem v (ids (map node services)) ≡ true
    → (s : Service) × (find_service v services ≡ some s)
unfolding find_service
find_service-elem v [] h = cc
find_service-elem v (s ∷ ss) h = elim (Option-cases (find_service v ss)) [
  | inr (t, e) ↦ (t, rw (e, find_service) refl)
  | inl e ↦ elim (Bool-cases (str_eq s.id v)) [
    | inl f ↦ (s, rw (e, find_service) (rw f refl))
    | inr f ↦
        (let (t, g) = find_service-elem v ss (ground (arith, h, f)) in
          absurd (ground (arith, e, g)))
  ]
]

module _ (m : Manager) (rounds : String → Round) (v : String) (pid now : ℕ) (i : Inv m)
    (up : (rounds v).launch ≡ launched pid now)
    (goes_on : (id : String) → (rounds id).is_done ≡ false)
    (quiet : (id : String) → (rounds id).ends ≡ []) where
  in_order-IsLive :
      (services : List Service) (order : List String)
      → elem v (ids (map node services)) ≡ true
      → elem v order ≡ true
      → IsLive (autostart_in services rounds m (sorted order)).0 v
  unfolding autostart_in
  in_order-IsLive services order there h =
      let (svc, found) = find_service-elem v services there in
      loop-starts services rounds v svc pid now found up goes_on quiet m order i h

  autostart_all-IsLive :
      (services : List Service) (rank : String → ℕ)
      → distinct (ids (map node services)) ≡ true
      → IsRank (map node services) rank
      → elem v (ids (map node services)) ≡ true
      → IsLive (autostart_all rounds m services).0 v
  unfolding autostart_all topo_sort
  autostart_all-IsLive [] rank unique ranked there = cc
  autostart_all-IsLive (s ∷ ss) rank unique ranked there =
      let nodes = map node (s ∷ ss) in
      let (order, e) = (topo_sort_nodes_iff nodes unique).0 (rank, ranked) in
      let (once, whole, before) = topo_sort_nodes-sorted nodes order unique e in
      rw e (in_order-IsLive (s ∷ ss) order there (whole v ∙ there))

-- In a manager in order, when the database answers, the autostart services have distinct ids and
-- dependencies without a cycle, the context is never done and no process ends meanwhile,
-- `StartAutostart` leaves every autostart service live whose own process starts, whether or not
-- the others fail to start.
pub start_autostart-IsLive :
    (m : Manager) (rounds : String → Round) (records : List ServiceRecord) (rank : String → ℕ)
    (v : String) (pid now : ℕ)
    → let services = autostart_services records in
      Inv m
      → list_service_records m.store ≡ some records
      → distinct (ids (map node services)) ≡ true
      → IsRank (map node services) rank
      → elem v (ids (map node services)) ≡ true
      → (rounds v).launch ≡ launched pid now
      → ((id : String) → (rounds id).is_done ≡ false)
      → ((id : String) → (rounds id).ends ≡ [])
      → IsLive (start_autostart m rounds).0 v
unfolding start_autostart
start_autostart-IsLive m rounds records rank v pid now i read unique ranked there up goes_on quiet =
    rw (read, start_autostart)
      (autostart_all-IsLive m rounds v pid now i up goes_on quiet (autostart_services records) rank
        unique ranked there)
