-- ===== src/Service/Topo/Order.antt =====
-- What topo.go's TopoSort promises: an order of the services in which dependencies come first,
-- or the services of a cycle.
use alresia_voltpanel.Prelude.{
  ◌≡◌, ◌≢◌, refl, String, Bool, true, false, List, [], ◌∷◌, eq_iff, keep, tally, elem, arith,
  length, Bool-cases, inl, inr, length-map, distinct, elem-keep, distinct-length,
}
use mathlib.Core.List.{append-nil}
use alresia_voltpanel.Service.Topo.{
  search_from, seed, DepNode, ids, build, finish, topo_sort_nodes, sorted,
}
use alresia_voltpanel.Prelude.Int.{is_zero}
use alresia_voltpanel.Service.Topo.Edges.{Edge, into, edges, edges-reach, build-Holds}
use alresia_voltpanel.Service.Topo.Invariant.{Inv, waiting, loop-Inv}
use alresia_voltpanel.Service.Topo.Rounds.{search_from-done}
use alresia_voltpanel.Service.Topo.Links.{needs, before, linked-edges, Ordered-before, needs_known}

waiting-nil : (es : List Edge) (v : String) → waiting es [] v ≡ tally (into v) es
waiting-nil [] v = refl
waiting-nil (e ∷ es) v = ground (arith, waiting-nil es v)

distinct-keep :
    (p : String → Bool) (xs : List String) → distinct xs ≡ true → distinct (keep p xs) ≡ true
distinct-keep p [] h = refl
distinct-keep p (x ∷ xs) h = ground (arith, distinct-keep p xs, elem-keep p x xs)

module _ (ns : List DepNode) (unique : distinct (ids ns) ≡ true) where
  start-Inv :
      Inv
        (edges ns)
        (ids ns)
        (record { degree = (build ns).in_degree; queue = seed (build ns).in_degree ns; order = [] })
        []
  unfolding seed is_zero
  start-Inv = record {
    counts = λ v. ground (arith, (build-Holds ns).degrees v, waiting-nil (edges ns) v);
    fresh = rw append-nil (distinct-keep _ (ids ns) unique);
    known = λ v m. ground (
      arith,
      append-nil (seed (build ns).in_degree ns),
      elem-keep (λ v. is_zero ((build ns).in_degree v)) v (ids ns),
    );
    queued_zero = λ v m. ground (
      arith,
      append-nil (seed (build ns).in_degree ns),
      elem-keep (λ v. is_zero ((build ns).in_degree v)) v (ids ns),
      (build-Holds ns).degrees v,
      waiting-nil (edges ns) v,
    );
    zero_queued = λ v m w. ground (
      arith,
      append-nil (seed (build ns).in_degree ns),
      elem-keep (λ v. is_zero ((build ns).in_degree v)) v (ids ns),
      (build-Holds ns).degrees v,
      waiting-nil (edges ns) v,
    );
    targets_known = λ v m. cc;
    ordered = tt;
  }

  pub search_from-Inv : Inv (edges ns) (ids ns) (search_from ns) []
  unfolding search_from
  search_from-Inv =
      loop-Inv (edges ns) (ids ns) (build ns).dependents (build-Holds ns).listed (edges-reach ns)
        (length ns) _ start-Inv

  -- What holds of the order that the search leaves.
  order-distinct : distinct (search_from ns).order ≡ true
  order-distinct = rw search_from-done at search_from-Inv.fresh

  pub order-known : (v : String) → elem v (search_from ns).order ≡ true → elem v (ids ns) ≡ true
  order-known v m = search_from-Inv.known v (rw search_from-done m)

  pub order-waiting :
      (v : String)
      → elem v (ids ns) ≡ true
      → elem v (search_from ns).order ≡ false
      → waiting (edges ns) (search_from ns).order v ≢ 0
  order-waiting v k m w = ground (arith, search_from-Inv.zero_queued v, search_from-done ns)

  order_complete :
      length (search_from ns).order ≡ length ns
      → (v : String) → elem v (search_from ns).order ≡ elem v (ids ns)
  order_complete e v = elim (Bool-cases (elem v (search_from ns).order)) [
    | inl m ↦ ground (arith, m, order-known v)
    | inr m ↦ elim (Bool-cases (elem v (ids ns))) [
      | inr k ↦ ground (arith, m, k)
      | inl k ↦ absurd (
          omega (
            arith,
            e,
            length-map (λ (n : DepNode). n.id) ns,
            distinct-length (v ∷ (search_from ns).order) (ids ns)
                (ground (arith, m, order-distinct))
                (λ u i. ground (arith, order-known u, eq_iff v u, k)),
          ))
    ]
  ]

  pub all-ordered :
      ((v : String) → elem v (ids ns) ≡ true → elem v (search_from ns).order ≡ true)
      → length (search_from ns).order ≡ length ns
  all-ordered k = omega (
    arith,
    length-map (λ (n : DepNode). n.id) ns,
    distinct-length (search_from ns).order (ids ns) order-distinct order-known,
    distinct-length (ids ns) (search_from ns).order unique k,
  )

  order-before :
      length (search_from ns).order ≡ length ns
      → (d v : String) → needs ns v d ≡ true
      → before d v (search_from ns).order ≡ true
  order-before e d v n =
      Ordered-before (edges ns) [] (search_from ns).order d v (rw linked-edges n)
        search_from-Inv.ordered (rw (order_complete e v) (needs_known ns d v n).0) refl

-- For services with distinct ids, a result `sorted` lists every service once, with whatever it
-- depends on before it.
pub topo_sort_nodes-sorted :
    (ns : List DepNode) (order : List String)
    → distinct (ids ns) ≡ true
    → topo_sort_nodes ns ≡ sorted order
    → (distinct order ≡ true)
      × ((v : String) → elem v order ≡ elem v (ids ns))
      × ((d v : String) → needs ns v d ≡ true → before d v order ≡ true)
unfolding topo_sort_nodes finish
topo_sort_nodes-sorted ns order unique h =
    let e : length (search_from ns).order ≡ length ns = ground arith in
    let o : (search_from ns).order ≡ order = ground arith in
    (
      rw (← o) (order-distinct ns unique),
      λ v. rw (← o) (order_complete ns unique e v),
      λ d v n. rw (← o) (order-before ns unique e d v n),
    )
