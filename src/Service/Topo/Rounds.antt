-- ===== src/Service/Topo/Rounds.antt =====
-- The rounds of topo.go's main loop: one for each node at most.
use alresia_voltpanel.Prelude.{
  ℕ, zero, suc, ◌+◌, ◌≡◌, String, true, List, [], ◌∷◌, ◌++◌, eq_iff, tally, elem, arith, ap, length,
  length-append, List-cases, ◌≤◌, Bool-cases, inl, inr, tally_mono, tally_strict, length-keep,
  length-map, str_eq_refl,
}
use alresia_voltpanel.Service.Topo.{
  Search, lower, relax, visit, loop, search_from, seed, DepNode, ids, build,
}
use alresia_voltpanel.Prelude.Int.{ℤ, decrement, is_zero, is_positive}
use alresia_voltpanel.Service.Topo.Edges.{edges-reach, build-Holds}

lowered_le :
    (s : Search) (dep v : String)
    → is_positive ((lower s dep).degree v) ≡ true
    → is_positive (s.degree v) ≡ true
unfolding lower is_positive
lowered_le s dep v = ground (arith, eq_iff dep v)

module _ (names : List String) where
  -- Those in the queue, and those that may still get there.
  abbrev work : Search → ℕ
  work s = length s.queue + tally (λ v. is_positive (s.degree v)) names

  lower-work : (s : Search) (dep : String) → elem dep names ≡ true → work (lower s dep) ≤ work s
  unfolding lower is_positive
  lower-work s dep m = elim (Bool-cases (is_zero (decrement (s.degree dep)))) [
    | inl e ↦ ground (
      arith,
      e,
      length-append s.queue (dep ∷ []),
      tally_strict (λ v. is_positive ((lower s dep).degree v)) (λ v. is_positive (s.degree v))
          (lowered_le s dep) dep names (ground arith) (ground (arith, str_eq_refl dep)) m,
    )
    | inr e ↦ ground (
      arith,
      e,
      tally_mono (λ v. is_positive ((lower s dep).degree v)) (λ v. is_positive (s.degree v))
          (lowered_le s dep) names,
    )
  ]

  relax-work :
      (s : Search) (deps : List String)
      → ((v : String) → elem v deps ≡ true → elem v names ≡ true)
      → work (relax s deps) ≤ work s
  unfolding relax
  relax-work s [] k = omega arith
  relax-work s (dep ∷ deps) k = omega (
    arith,
    lower-work s dep (k dep (ground (arith, str_eq_refl dep))),
    relax-work (lower s dep) deps (λ v m. k v (ground arith)),
  )

  loop-done :
      (dependents : String → List String)
      → ((d v : String) → elem v (dependents d) ≡ true → elem v names ≡ true)
      → (fuel : ℕ) (s : Search) → work s ≤ fuel
      → (loop dependents fuel s).queue ≡ []
  unfolding loop
  loop-done dependents k zero s h = ground arith
  loop-done dependents k (suc fuel) s h = elim (List-cases s.queue) [
    | inl e ↦ rw (e, loop) e
    | inr (id, rest, e) ↦
        rw (e, loop)
          (loop-done dependents k fuel (visit dependents s id rest) (
            unfold visit in
            omega (
              arith,
              ap length e,
              relax-work (record s { queue = rest; order = s.order ++ id ∷ [] }) (dependents id)
                  (k id),
            )))
  ]

seed-work :
    (deg : String → ℤ) (names : List String)
    → tally (λ v. is_zero (deg v)) names + tally (λ v. is_positive (deg v)) names ≤ length names
unfolding is_zero is_positive
seed-work deg [] = omega arith
seed-work deg (v ∷ vs) = ground (arith, seed-work deg vs)

-- The search ends by its own test: its fuel, one round for each node, is never used up before the
-- queue is empty.
pub search_from-done : (ns : List DepNode) → (search_from ns).queue ≡ []
unfolding search_from seed
search_from-done ns =
    loop-done (ids ns) (build ns).dependents
      (λ d v m. edges-reach ns d v (ground (arith, (build-Holds ns).listed d))) (length ns) _
      (omega (
        arith,
        length-keep (λ v. is_zero ((build ns).in_degree v)) (ids ns),
        seed-work (build ns).in_degree (ids ns),
        length-map (λ (n : DepNode). n.id) ns,
      ))
