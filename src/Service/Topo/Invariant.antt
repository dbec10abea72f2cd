-- ===== src/Service/Topo/Invariant.antt =====
-- The invariant of topo.go's main loop, between two rounds and inside `relax`.
use mathlib.Core.List.{append_assoc, append-nil}
use alresia_voltpanel.Prelude.{
  ℕ, zero, suc, ◌+◌, ◌≡◌, refl, String, true, false, not, ◌&&◌, ◌||◌, List, [], ◌∷◌, ◌++◌, str_eq,
  eq_iff, tally, elem, arith, if◌then◌else◌, occurrences, distinct, elem-append, str_eq_refl, ◌==◌,
  elem-middle, distinct-middle, List-cases, inl, inr,
}
use alresia_voltpanel.Service.Topo.{Search, lower, relax, visit, loop}
use alresia_voltpanel.Prelude.Int.{pos, decrement, is_zero}
use alresia_voltpanel.Service.Topo.Edges.{Edge, into, targets}

-- The edges into `v` whose source is not yet in the order.
abbrev pub waiting : List Edge → List String → String → ℕ
waiting es order v = tally (λ e. into v e && not (elem e.0 order)) es

pub waiting-step :
    (es : List Edge) (order : List String) (d v : String)
    → elem d order ≡ false
    → waiting es order v ≡ waiting es (order ++ d ∷ []) v + occurrences v (targets d es)
waiting-step [] order d v h = refl
waiting-step ((a, b) ∷ es) order d v h =
    ground
      (arith, waiting-step es order d v h, elem-append a order (d ∷ []), eq_iff d a, eq_iff a d)

-- Each name of the order stands behind the sources of all edges into it.
abbrev pub Ordered : List Edge → List String → List String → Type 0
Ordered es seen [] = Unit {0}
Ordered es seen (v ∷ vs) = (waiting es seen v ≡ 0) × Ordered es (seen ++ v ∷ []) vs

pub Ordered-snoc :
    (es : List Edge) (seen vs : List String) (v : String)
    → Ordered es seen vs
    → waiting es (seen ++ vs) v ≡ 0
    → Ordered es seen (vs ++ v ∷ [])
Ordered-snoc es seen [] v o w = (rw append-nil at w, tt)
Ordered-snoc es seen (u ∷ vs) v o w =
    (o.0, Ordered-snoc es (seen ++ u ∷ []) vs v o.1 (rw append_assoc w))

module _ (es : List Edge) (names : List String) where
  -- `pending` holds the decrements that the round has still to make.
  pub record Inv (s : Search) (pending : List String) : Type 0 where
    pub counts : (v : String) → s.degree v ≡ pos (waiting es s.order v + occurrences v pending)
    pub fresh : distinct (s.queue ++ s.order) ≡ true
    pub known : (v : String) → elem v (s.queue ++ s.order) ≡ true → elem v names ≡ true
    pub queued_zero :
        (v : String)
        → elem v (s.queue ++ s.order) ≡ true
        → waiting es s.order v + occurrences v pending ≡ 0
    pub zero_queued :
        (v : String)
        → elem v names ≡ true
        → waiting es s.order v + occurrences v pending ≡ 0
        → elem v (s.queue ++ s.order) ≡ true
    pub targets_known : (v : String) → elem v pending ≡ true → elem v names ≡ true
    pub ordered : Ordered es [] s.order

  module _ (s : Search) (dep : String) (deps : List String) (h : Inv s (dep ∷ deps)) where
    lower-counts :
        (v : String) → (lower s dep).degree v ≡ pos (waiting es s.order v + occurrences v deps)
    unfolding lower
    lower-counts v = ground (arith, h.counts v, h.counts dep, eq_iff dep v, str_eq_refl dep)

    -- `dep` was not queued before
    dep_absent : elem dep (s.queue ++ s.order) ≡ false
    dep_absent = ground (arith, h.queued_zero dep, str_eq_refl dep)

    is_zero-lower :
        is_zero (decrement (s.degree dep)) ≡ (waiting es s.order dep + occurrences dep deps == 0)
    unfolding lower
    is_zero-lower = ground (arith, h.counts dep, str_eq_refl dep)

    elem-lower :
        (v : String)
        → elem v ((lower s dep).queue ++ s.order) ≡ (
            if waiting es s.order dep + occurrences dep deps == 0
            then str_eq dep v || elem v (s.queue ++ s.order)
            else elem v (s.queue ++ s.order))
    unfolding lower
    elem-lower v =
        rw is_zero-lower (
          ground
            (arith, append_assoc s.queue (dep ∷ []) s.order, elem-middle v dep s.queue s.order))

    distinct-lower : distinct ((lower s dep).queue ++ s.order) ≡ true
    unfolding lower
    distinct-lower = ground (
      arith,
      h.fresh,
      dep_absent,
      append_assoc s.queue (dep ∷ []) s.order,
      distinct-middle dep s.queue s.order,
    )

    lower-Inv : Inv (lower s dep) deps
    unfolding lower
    lower-Inv = record {
      counts = lower-counts;
      fresh = distinct-lower;
      known = λ v.
          ground
            (arith, elem-lower v, h.known v, h.targets_known dep, eq_iff dep v, str_eq_refl dep);
      queued_zero = λ v. ground (arith, elem-lower v, h.queued_zero v, eq_iff dep v);
      zero_queued = λ v. ground (arith, elem-lower v, h.zero_queued v, eq_iff dep v);
      targets_known = λ v. ground (arith, h.targets_known v);
      ordered = h.ordered;
    }

  relax-Inv : (s : Search) (deps : List String) → Inv s deps → Inv (relax s deps) []
  unfolding relax
  relax-Inv s [] h = h
  relax-Inv s (dep ∷ deps) h = relax-Inv (lower s dep) deps (lower-Inv s dep deps h)

module _ (es : List Edge) (names : List String) (dependents : String → List String)
    (listed : (d : String) → dependents d ≡ targets d es)
    (reach : (d v : String) → elem v (targets d es) ≡ true → elem v names ≡ true) where
  visit-Inv :
      (s : Search) (id : String) (rest : List String)
      → s.queue ≡ id ∷ rest
      → Inv es names s []
      → Inv es names (visit dependents s id rest) []
  unfolding visit
  visit-Inv s id rest e h = rw listed (
      relax-Inv es names s' (targets id es) (record {
        counts = λ v. rw h.counts (ground (arith, waiting-step es s.order id v id_new));
        fresh = ground (arith, h.fresh, moved);
        known = λ v. ground (arith, h.known v, elem-moved v);
        queued_zero =
            λ v. ground (arith, h.queued_zero v, elem-moved v, waiting-step es s.order id v id_new);
        zero_queued =
            λ v. ground (arith, h.zero_queued v, elem-moved v, waiting-step es s.order id v id_new);
        targets_known = reach id;
        ordered =
            Ordered-snoc es [] s.order id h.ordered
              (ground (arith, h.queued_zero id, str_eq_refl id));
      }))
    where
      s' : Search
      s' = record s { queue = rest; order = s.order ++ id ∷ [] }

      old_fresh : distinct (id ∷ rest ++ s.order) ≡ true
      old_fresh = rw e at h.fresh

      id_new : elem id s.order ≡ false
      id_new = ground (arith, old_fresh, elem-append id rest s.order)

      moved : distinct (rest ++ (s.order ++ id ∷ [])) ≡ true
      moved = rw (← append_assoc) (
          ground (
            arith,
            old_fresh,
            distinct-middle id (rest ++ s.order) [],
            append-nil (rest ++ s.order),
          ))

      elem-moved :
          (v : String) → elem v (rest ++ (s.order ++ id ∷ [])) ≡ elem v (s.queue ++ s.order)
      elem-moved v =
          rw (← append_assoc, e)
            (ground (arith, elem-middle v id (rest ++ s.order) [], append-nil (rest ++ s.order)))

  pub loop-Inv :
      (fuel : ℕ) (s : Search) → Inv es names s [] → Inv es names (loop dependents fuel s) []
  unfolding loop
  loop-Inv zero s h = h
  loop-Inv (suc fuel) s h = elim (List-cases s.queue) [
    | inl e ↦ rw (e, loop) h
    | inr (id, rest, e) ↦
        rw (e, loop) (loop-Inv fuel (visit dependents s id rest) (visit-Inv s id rest e h))
  ]
