-- ===== src/Service/Topo/Edges.antt =====
-- The edges of topo.go's dependency graph, and what its two maps hold of them.
use alresia_voltpanel.Prelude.{
  ◌≡◌, refl, String, Bool, true, List, [], ◌∷◌, ◌++◌, str_eq, eq_iff, tally, tally-append, elem,
  elem-append, str_eq_refl, arith, if◌then◌else◌,
}
use mathlib.Core.Path.{fun_ext}
use mathlib.Core.List.{append_assoc, append-nil}
use alresia_voltpanel.Service.Topo.{
  DepNode, Graph, present, add_edge, add_edges, add_nodes, build, ids,
}
use alresia_voltpanel.Prelude.Int.{pos, increment}

-- An edge leads from a dependency to the service that needs it.
abbrev pub Edge : Type 0
Edge = String × String

abbrev pub edges_to : (String → Bool) → String → List String → List Edge
edges_to here id [] = []
edges_to here id (dep ∷ deps) =
    if here dep then (dep, id) ∷ edges_to here id deps else edges_to here id deps

abbrev pub edges_in : (String → Bool) → List DepNode → List Edge
edges_in here [] = []
edges_in here (n ∷ ns) = edges_to here n.id n.depends_on ++ edges_in here ns

unfoldable pub edges : List DepNode → List Edge
edges ns = edges_in (λ d. elem d (ids ns)) ns

abbrev pub into : String → Edge → Bool
into v e = str_eq e.1 v

abbrev pub targets : String → List Edge → List String
targets d [] = []
targets d ((a, b) ∷ es) = if str_eq a d then b ∷ targets d es else targets d es

targets-append :
    (d : String) (es fs : List Edge) → targets d (es ++ fs) ≡ targets d es ++ targets d fs
targets-append d [] fs = refl
targets-append d ((a, b) ∷ es) fs = ground (arith, targets-append d es fs)

-- The maps hold the edges `es`.
pub record Holds (g : Graph) (es : List Edge) : Type 0 where
  pub degrees : (v : String) → g.in_degree v ≡ pos (tally (into v) es)
  pub listed : (d : String) → g.dependents d ≡ targets d es

present-elem : (ns : List DepNode) (d : String) → present ns d ≡ elem d (ids ns)
unfolding present
present-elem [] d = refl
present-elem (n ∷ ns) d = ground (arith, present-elem ns d)

module _ (here : String → Bool) (id : String) where
  edges_to-cons :
      (dep : String) (deps : List String)
      → edges_to here id (dep ∷ deps) ≡ edges_to here id (dep ∷ []) ++ edges_to here id deps
  edges_to-cons dep deps = ground arith

  add_edge-Holds :
      (g : Graph) (es : List Edge) (dep : String)
      → Holds g es
      → Holds (add_edge here id g dep) (es ++ edges_to here id (dep ∷ []))
  unfolding add_edge increment
  add_edge-Holds g es dep h = record {
    degrees = λ v. ground (
      arith,
      h.degrees v,
      h.degrees id,
      eq_iff id v,
      tally-append (into v) es (edges_to here id (dep ∷ [])),
    );
    listed = λ d. ground (
      arith,
      h.listed d,
      h.listed dep,
      eq_iff dep d,
      targets-append d es (edges_to here id (dep ∷ [])),
      append-nil (targets d es),
    );
  }

  add_edges-Holds :
      (g : Graph) (es : List Edge) (deps : List String)
      → Holds g es
      → Holds (add_edges here id g deps) (es ++ edges_to here id deps)
  unfolding add_edges
  add_edges-Holds g es [] h = rw append-nil h
  add_edges-Holds g es (dep ∷ deps) h =
      rw (edges_to-cons dep deps, ← append_assoc)
        (add_edges-Holds (add_edge here id g dep) (es ++ edges_to here id (dep ∷ [])) deps
          (add_edge-Holds g es dep h))

add_nodes-Holds :
    (here : String → Bool) (g : Graph) (es : List Edge) (ns : List DepNode)
    → Holds g es
    → Holds (add_nodes here g ns) (es ++ edges_in here ns)
unfolding add_nodes
add_nodes-Holds here g es [] h = rw append-nil h
add_nodes-Holds here g es (n ∷ ns) h = rw (← append_assoc) (
    add_nodes-Holds here (add_edges here n.id g n.depends_on)
      (es ++ edges_to here n.id n.depends_on) ns (add_edges-Holds here n.id g es n.depends_on h))

-- The loops over the nodes leave exactly the edges in the maps.
pub build-Holds : (ns : List DepNode) → Holds (build ns) (edges ns)
unfolding build edges
build-Holds ns = rw (← fun_ext (present-elem ns)) (
    add_nodes-Holds (present ns) (record { in_degree = λ _. pos 0; dependents = λ _. [] }) [] ns
      (record { degrees = λ v. refl; listed = λ d. refl }))

targets-edges_to :
    (here : String → Bool) (id d v : String) (deps : List String)
    → elem v (targets d (edges_to here id deps)) ≡ true
    → id ≡ v
targets-edges_to here id d v [] h = cc
targets-edges_to here id d v (dep ∷ deps) h =
    ground (arith, targets-edges_to here id d v deps, eq_iff id v)

edges_in-reach :
    (here : String → Bool) (ns : List DepNode) (d v : String)
    → elem v (targets d (edges_in here ns)) ≡ true
    → elem v (ids ns) ≡ true
edges_in-reach here [] d v h = cc
edges_in-reach here (n ∷ ns) d v h = ground (
  arith,
  targets-append d (edges_to here n.id n.depends_on) (edges_in here ns),
  elem-append v (targets d (edges_to here n.id n.depends_on)) (targets d (edges_in here ns)),
  targets-edges_to here n.id d v n.depends_on,
  edges_in-reach here ns d v,
  str_eq_refl v,
)

-- Edges lead to nodes.
pub edges-reach :
    (ns : List DepNode) (d v : String)
    → elem v (targets d (edges ns)) ≡ true
    → elem v (ids ns) ≡ true
unfolding edges
edges-reach ns d v h = edges_in-reach (λ x. elem x (ids ns)) ns d v h
