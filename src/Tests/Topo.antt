-- ===== src/Tests/Topo.antt =====
-- internal/domain/service/topo.go at three services and at a cycle of two.
use alresia_voltpanel.Prelude.{◌≡◌, ◌≢◌, refl, String, true, List, [], ◌∷◌, elem, distinct, ◌↔◌, ℕ}
use alresia_voltpanel.Service.Topo.{DepNode, ids, search_from, sorted, cycle, topo_sort_nodes}
use alresia_voltpanel.Service.Topo.Links.{needs, before}
use alresia_voltpanel.Service.Topo.Rounds.{search_from-done}
use alresia_voltpanel.Service.Topo.Order.{topo_sort_nodes-sorted}
use alresia_voltpanel.Service.Topo.Cycles.{topo_sort_nodes-cycle, topo_sort_nodes_iff, IsRank}

abbrev web_stack : List DepNode
web_stack =
    record { id = "web"; depends_on = "api" ∷ [] }
    ∷ record { id = "api"; depends_on = "db" ∷ "cache" ∷ [] }
    ∷ record { id = "db"; depends_on = [] }
    ∷ []

abbrev knot : List DepNode
knot = record { id = "a"; depends_on = "b" ∷ [] } ∷ record { id = "b"; depends_on = "a" ∷ [] } ∷ []

web_order : topo_sort_nodes web_stack ≡ sorted ("db" ∷ "api" ∷ "web" ∷ [])
unfolding topo_sort_nodes
web_order = refl

knot_stuck : topo_sort_nodes knot ≡ cycle ("a" ∷ "b" ∷ [])
unfolding topo_sort_nodes
knot_stuck = refl

search_from-done_example : (search_from web_stack).queue ≡ []
search_from-done_example = search_from-done web_stack

topo_sort_nodes-sorted_example :
    (distinct ("db" ∷ "api" ∷ "web" ∷ []) ≡ true)
    × ((v : String) → elem v ("db" ∷ "api" ∷ "web" ∷ []) ≡ elem v (ids web_stack))
    × ((d v : String) → needs web_stack v d ≡ true → before d v ("db" ∷ "api" ∷ "web" ∷ []) ≡ true)
topo_sort_nodes-sorted_example =
    topo_sort_nodes-sorted web_stack ("db" ∷ "api" ∷ "web" ∷ []) refl web_order

topo_sort_nodes-cycle_example :
    (◌≢◌ {A = List String} ("a" ∷ "b" ∷ []) [])
    × ((v : String)
        → elem v ("a" ∷ "b" ∷ []) ≡ true
        → (d : String) × (needs knot v d ≡ true) × (elem d ("a" ∷ "b" ∷ []) ≡ true))
topo_sort_nodes-cycle_example = topo_sort_nodes-cycle knot ("a" ∷ "b" ∷ []) refl knot_stuck

topo_sort_nodes_iff_example :
    ((rank : String → ℕ) × IsRank web_stack rank)
    ↔ ((order : List String) × (topo_sort_nodes web_stack ≡ sorted order))
topo_sort_nodes_iff_example = topo_sort_nodes_iff web_stack refl
