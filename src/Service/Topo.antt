-- ===== src/Service/Topo.antt =====
-- internal/domain/service/topo.go: Kahn's algorithm over service ids. `DepNode` is the source's
-- `dependencyNode`; a Go map is a function with its default, and `present` is its own function.
pub mod Edges
pub mod Links
pub mod Order
pub mod Cycles
pub mod Rounds
pub mod Invariant
use alresia_voltpanel.Prelude.{
  ℕ, zero, suc, String, Bool, true, false, List, [], ◌∷◌, ◌++◌, map, str_eq, ◌==◌, length, keep,
  if◌then◌else◌,
}
use alresia_voltpanel.Prelude.Int.{ℤ, pos, increment, decrement, is_zero, is_positive}
use alresia_voltpanel.Service.Entity.{Service}

pub record DepNode : Type 0 where
  pub id : String
  pub depends_on : List String

-- m[k] = v
abbrev pub update {ℓ} : {V : Type ℓ} → (String → V) → String → V → String → V
update m k v j = if str_eq k j then v else m j

pub present : List DepNode → String → Bool
present [] = λ _. false
present (n ∷ ns) = update (present ns) n.id true

pub record Graph : Type 0 where
  pub in_degree : String → ℤ
  pub dependents : String → List String

-- the body of the loop over `n.DependsOn`
pub add_edge : (String → Bool) → String → Graph → String → Graph
unfolding increment
add_edge here id g dep =
    if here dep
    then record {
      in_degree = update g.in_degree id (increment (g.in_degree id));
      dependents = update g.dependents dep (g.dependents dep ++ id ∷ []);
    }
    else g

pub add_edges : (String → Bool) → String → Graph → List String → Graph
unfolding add_edge
add_edges here id g [] = g
add_edges here id g (dep ∷ deps) = add_edges here id (add_edge here id g dep) deps

pub add_nodes : (String → Bool) → Graph → List DepNode → Graph
unfolding add_edges
add_nodes here g [] = g
add_nodes here g (n ∷ ns) = add_nodes here (add_edges here n.id g n.depends_on) ns

-- both maps, `inℤ` set to 0 for every id first
pub build : List DepNode → Graph
unfolding add_nodes present
build ns = add_nodes (present ns) (record { in_degree = λ _. pos 0; dependents = λ _. [] }) ns

abbrev pub ids : List DepNode → List String
ids = map (λ n. n.id)

pub seed : (String → ℤ) → List DepNode → List String
unfolding is_zero
seed deg ns = keep (λ v. is_zero (deg v)) (ids ns)

pub record Search : Type 0 where
  pub degree : String → ℤ
  pub queue : List String
  pub order : List String

-- the body of the loop over `dependents[id]`
pub lower : Search → String → Search
unfolding decrement is_zero
lower s dep =
    let d = decrement (s.degree dep) in
    record s {
      degree = update s.degree dep d;
      queue = if is_zero d then s.queue ++ dep ∷ [] else s.queue;
    }

pub relax : Search → List String → Search
unfolding lower
relax s [] = s
relax s (dep ∷ deps) = relax (lower s dep) deps

-- one round of the `for len(queue) > 0` loop, after `id` left the queue
pub visit : (String → List String) → Search → String → List String → Search
unfolding relax
visit dependents s id rest =
    relax (record s { queue = rest; order = s.order ++ id ∷ [] }) (dependents id)

-- the loop, on fuel; it ends with an empty queue when the fuel is enough
pub loop : (String → List String) → ℕ → Search → Search
unfolding visit
loop dependents zero s = s
loop dependents (suc fuel) s = elim s.queue [
  | [] ↦ s
  | id ∷ rest ↦ loop dependents fuel (visit dependents s id rest)
]

pub data Result : Type 0 where
  sorted : List String → Result
  cycle : List String → Result

-- the search when the loop is left; one round for each node is enough
pub search_from : List DepNode → Search
unfolding loop build seed
search_from ns =
    loop (build ns).dependents (length ns)
      (record { degree = (build ns).in_degree; queue = seed (build ns).in_degree ns; order = [] })

pub finish : List DepNode → Search → Result
unfolding is_positive
finish ns s =
    if length s.order == length ns
    then sorted s.order
    else cycle (keep (λ v. is_positive (s.degree v)) (ids ns))

unfoldable pub topo_sort_nodes : List DepNode → Result
unfolding search_from finish
topo_sort_nodes ns = finish ns (search_from ns)

unfoldable pub topo_sort : List Service → Result
unfolding topo_sort_nodes
topo_sort services =
    topo_sort_nodes
      (map (λ (s : Service). record { id = s.id; depends_on = s.depends_on }) services)
