-- ===== src/Service/Topo/Cycles.antt =====
-- When topo.go's TopoSort fails, and what it then reports.
use alresia_voltpanel.Prelude.{
  ℕ, zero, suc, ◌≡◌, ◌≢◌, refl, String, true, false, not, ◌&&◌, List, [], ◌∷◌, str_eq, eq_iff, keep,
  elem, arith, if◌then◌else◌, ap, length, List-cases, ◌<◌, inl, inr, ◌⊎◌, ◌↔◌, str_eq_refl,
  distinct, elem-append, elem-keep,
}
use alresia_voltpanel.Service.Topo.{
  search_from, DepNode, Result, ids, finish, topo_sort_nodes, sorted, cycle,
}
use alresia_voltpanel.Prelude.Int.{is_positive}
use alresia_voltpanel.Service.Topo.Edges.{edges}
use alresia_voltpanel.Service.Topo.Links.{
  needs, before, linked-edges, source_missing, needs_known, before-elem,
}
use alresia_voltpanel.Service.Topo.Order.{
  search_from-Inv, order-waiting, all-ordered, topo_sort_nodes-sorted,
}

-- A rank that falls along every dependency: there is one exactly when there is no cycle.
abbrev pub IsRank : List DepNode → (String → ℕ) → Type 0
IsRank ns rank = (d v : String) → needs ns v d ≡ true → rank d < rank v

abbrev stuck : List DepNode → List String
stuck ns = keep (λ v. is_positive ((search_from ns).degree v)) (ids ns)

Result-cases :
    (r : Result) → ((o : List String) × (r ≡ sorted o)) ⊎ ((s : List String) × (r ≡ cycle s))
Result-cases (sorted o) = inl (o, refl)
Result-cases (cycle s) = inr (s, refl)

module _ (ns : List DepNode) (unique : distinct (ids ns) ≡ true) where
  -- The stuck services are those that the search left out.
  elem-stuck :
      (v : String) → elem v (stuck ns) ≡ (elem v (ids ns) && not (elem v (search_from ns).order))
  unfolding is_positive
  elem-stuck v =
      let inv = search_from-Inv ns unique in
      ground (
        arith,
        elem-keep (λ v. is_positive ((search_from ns).degree v)) v (ids ns),
        inv.counts v,
        inv.queued_zero v,
        elem-append v (search_from ns).queue (search_from ns).order,
        order-waiting ns unique v,
      )

  stuck_dependency :
      (v : String)
      → elem v (stuck ns) ≡ true
      → (d : String) × (needs ns v d ≡ true) × (elem d (stuck ns) ≡ true)
  stuck_dependency v m =
      let left : (elem v (ids ns) ≡ true) × (elem v (search_from ns).order ≡ false) =
        ground (arith, elem-stuck v) in
      let (d, l, a) =
        source_missing (edges ns) (search_from ns).order v
          (order-waiting ns unique v left.0 left.1) in
      let n = rw linked-edges at l in
      (d, n, ground (arith, elem-stuck d, a, (needs_known ns d v n).1))

  stuck_nonempty : length (search_from ns).order ≢ length ns → stuck ns ≢ []
  stuck_nonempty e s =
      e (all-ordered ns unique (λ v k. ground (arith, elem-stuck v, ap (elem v) s)))

-- For services with distinct ids, a result `cycle` names at least one service, and with each
-- service one that it depends on.
pub topo_sort_nodes-cycle :
    (ns : List DepNode) (names : List String)
    → distinct (ids ns) ≡ true
    → topo_sort_nodes ns ≡ cycle names
    → (names ≢ [])
      × ((v : String)
          → elem v names ≡ true
          → (d : String) × (needs ns v d ≡ true) × (elem d names ≡ true))
unfolding topo_sort_nodes finish
topo_sort_nodes-cycle ns names unique h =
    let e : length (search_from ns).order ≢ length ns = ground arith in
    let o : stuck ns ≡ names = ground arith in
    (rw (← o) (stuck_nonempty ns unique e), rw (← o) (stuck_dependency ns unique))

-- Going from a service to one that it waits for never ends.
no_rank :
    (ns : List DepNode) (rank : String → ℕ) (names : List String)
    → IsRank ns rank
    → ((v : String)
        → elem v names ≡ true
        → (d : String) × (needs ns v d ≡ true) × (elem d names ≡ true))
    → (k : ℕ) (v : String) → rank v < k
    → elem v names ≡ true
    → ⊥
no_rank ns rank names r c zero v h m = absurd (omega arith)
no_rank ns rank names r c (suc k) v h m =
    let (d, n, i) = c v m in no_rank ns rank names r c k d (let f = r d v n in omega arith) i

cycle-no_rank :
    (ns : List DepNode) (rank : String → ℕ) (names : List String)
    → distinct (ids ns) ≡ true
    → IsRank ns rank
    → topo_sort_nodes ns ≡ cycle names
    → ⊥
cycle-no_rank ns rank names unique r e =
    let (some_name, closed) = topo_sort_nodes-cycle ns names unique e in
    elim (List-cases names) [
      | inl none_left ↦ some_name none_left
      | inr (v, rest, l) ↦
          no_rank ns rank names r closed (suc (rank v)) v (omega arith)
            (rw l (ground (arith, str_eq_refl v)))
    ]

-- The place of a name in a list.
index : String → List String → ℕ
index a [] = 0
index a (x ∷ xs) = if str_eq x a then 0 else suc (index a xs)

index-before :
    (d v : String) (xs : List String)
    → distinct xs ≡ true
    → before d v xs ≡ true
    → index d xs < index v xs
unfolding index before
index-before d v [] u b = cc
index-before d v (x ∷ xs) u b =
    ground (arith, index-before d v xs, eq_iff x d, eq_iff x v, before-elem d v xs)

-- For services with distinct ids, the sort succeeds exactly when the services can be ranked with
-- each above what it depends on.
pub topo_sort_nodes_iff :
    (ns : List DepNode)
    → distinct (ids ns) ≡ true
    → ((rank : String → ℕ) × IsRank ns rank)
      ↔ ((order : List String) × (topo_sort_nodes ns ≡ sorted order))
topo_sort_nodes_iff ns unique = (forwards, backwards)
  where
    forwards :
        ((rank : String → ℕ) × IsRank ns rank)
        → (order : List String) × (topo_sort_nodes ns ≡ sorted order)
    forwards (rank, r) = elim (Result-cases (topo_sort_nodes ns)) [
      | inl done ↦ done
      | inr (names, e) ↦ absurd (cycle-no_rank ns rank names unique r e)
    ]

    backwards :
        ((order : List String) × (topo_sort_nodes ns ≡ sorted order))
        → (rank : String → ℕ) × IsRank ns rank
    backwards (order, e) =
        let (u, m, b) = topo_sort_nodes-sorted ns order unique e in
        (λ v. index v order, λ d v n. index-before d v order u (b d v n))
