-- ===== src/Runtimes/Lookups.antt =====
-- The row of a version that SELECT finds in internal/domain/runtime/runtime.go is the only one that
-- an UPDATE by its id changes.
use alresia_voltpanel.Prelude.{
  ◌≤◌, ◌≡◌, refl, ap, subst, String, true, false, some, List, [], ◌∷◌, map, str_eq, eq_iff, arith,
  Bool-cases, inl, inr, if◌then◌else◌, tally, str_eq_refl,
}
use alresia_voltpanel.Prelude.Table.{has_key, change, unique}
use alresia_voltpanel.Runtimes.{VersionRow, version_key, is_pair, find_version}

the_row : (q r : VersionRow) → some q ≡ some r → q ≡ r
the_row q r h = cc

module _ (runtime_id : String) where
  -- no row has the version, or no row the id
  map_nothing :
      (v : String) (f : VersionRow → VersionRow) (rows : List VersionRow)
      → tally (is_pair runtime_id v) rows ≡ 0
      → map (λ q. if is_pair runtime_id v q then f q else q) rows ≡ rows
  map_nothing v f [] h = refl
  map_nothing v f (r ∷ rows) h =
      let e : is_pair runtime_id v r ≡ false = ground arith in
      rw (e, map_nothing v f rows (ground (arith, e))) refl

  change_nothing :
      (id : String) (f : VersionRow → VersionRow) (rows : List VersionRow)
      → has_key version_key id rows ≡ false
      → change version_key id f rows ≡ rows
  unfolding change has_key
  change_nothing id f [] h = refl
  change_nothing id f (r ∷ rows) h =
      let e : str_eq r.id id ≡ false = ground arith in
      rw (e, change_nothing id f rows (ground arith)) refl

  found_first :
      (v : String) (r q : VersionRow) (rows : List VersionRow)
      → is_pair runtime_id v q ≡ true
      → find_version runtime_id v (q ∷ rows) ≡ some r
      → q ≡ r
  unfolding find_version
  found_first v r q rows e h =
      the_row q r (subst (λ b. (if b then some q else find_version runtime_id v rows) ≡ some r) e h)

  found_version :
      (v : String) (r : VersionRow) (rows : List VersionRow)
      → find_version runtime_id v rows ≡ some r
      → has_key version_key r.id rows ≡ true
  unfolding find_version has_key
  found_version v r [] h = cc
  found_version v r (q ∷ rows) h = elim (Bool-cases (is_pair runtime_id v q)) [
    | inl e ↦ ground (
      arith,
      found_first v r q rows e h,
      str_eq_refl r.id,
      ap version_key (found_first v r q rows e h),
    )
    | inr e ↦ ground (arith, e, found_version v r rows)
  ]

  pub found_count :
      (v : String) (r : VersionRow) (rows : List VersionRow)
      → find_version runtime_id v rows ≡ some r
      → 1 ≤ tally (is_pair runtime_id v) rows
  unfolding find_version
  found_count v r [] h = cc
  found_count v r (q ∷ rows) h = ground (arith, found_count v r rows)

  pub change-one :
      (v : String) (r : VersionRow) (f : VersionRow → VersionRow) (rows : List VersionRow)
      → tally (is_pair runtime_id v) rows ≤ 1
      → unique version_key rows ≡ true
      → find_version runtime_id v rows ≡ some r
      → change version_key r.id f rows ≡ map (λ q. if is_pair runtime_id v q then f q else q) rows
  unfolding find_version change unique
  change-one v r f [] n u h = refl
  change-one v r f (q ∷ rows) n u h = elim (Bool-cases (is_pair runtime_id v q)) [
    | inl e ↦
        let same : q ≡ r = found_first v r q rows e h in
        let k : str_eq q.id r.id ≡ true = (eq_iff q.id r.id).1 (ap version_key same) in
        let alone : has_key version_key r.id rows ≡ false =
          ground (arith, subst (λ x. has_key version_key x.id rows ≡ false) same (ground arith)) in
        rw (e, k, change_nothing r.id f rows alone, map_nothing v f rows (ground (arith, e))) refl
    | inr e ↦
        let k : str_eq q.id r.id ≡ false =
          ground (arith, e, found_version v r rows, eq_iff q.id r.id) in
        rw (e, k, change-one v r f rows (ground (arith, e)) (ground arith) (ground (arith, e))) refl
  ]
