-- ===== src/Runtimes/Sound.antt =====
-- The rows of the table of versions of internal/domain/runtime/runtime.go, as an invariant: the table
-- has no UNIQUE constraint for a runtime and a version.
use alresia_voltpanel.Prelude.{
  keep, ◌≤◌, ◌≡◌, ◌∙◌, refl, subst, String, Bool, true, false, not, Option, none, some, List, [],
  ◌∷◌, ◌++◌, map, str_eq, eq_iff, arith, Bool-cases, inl, inr, on_if, on_option, tally,
  tally-append,
}
use alresia_voltpanel.Prelude.Table.{
  has_key, change, unique, unique-append, unique-change, unique, unique-append, unique-change,
}
use alresia_voltpanel.Runtimes.{
  VersionRow, DetectedVersion, version_key, is_of, is_pair, find_version, mark_missing,
  detected_row, redetect, place, place_all,
}

-- No two rows for the same version of a runtime, and none with the same id.
pub record Sound (rows : List VersionRow) : Type 0 where
  pub pairs : (runtime_id version : String) → tally (is_pair runtime_id version) rows ≤ 1
  pub ids : unique version_key rows ≡ true

module _ {A : Type 0} where
  pub tally-map :
      (p q : A → Bool) (f : A → A) (rows : List A)
      → ((a : A) → p (f a) ≡ q a)
      → tally p (map f rows) ≡ tally q rows
  tally-map p q f [] same = refl
  tally-map p q f (a ∷ rows) same = ground (arith, same a, tally-map p q f rows same)

  tally-change :
      (p : A → Bool) (key : A → String) (id : String) (f : A → A) (rows : List A)
      → ((a : A) → p (f a) ≡ p a)
      → tally p (change key id f rows) ≡ tally p rows
  unfolding change
  tally-change p key id f [] same = refl
  tally-change p key id f (a ∷ rows) same = elim (Bool-cases (str_eq (key a) id)) [
    | inl e ↦ rw (e, same a, tally-change p key id f rows same) refl
    | inr e ↦ rw (e, tally-change p key id f rows same) refl
  ]

module _ {A : Type 0} (key : A → String) (f : A → A) (same : (a : A) → key (f a) ≡ key a) where
  has_key-map : (v : String) (rows : List A) → has_key key v (map f rows) ≡ has_key key v rows
  unfolding has_key
  has_key-map v [] = refl
  has_key-map v (a ∷ rows) = rw (same a, has_key-map v rows) refl

  unique-map : (rows : List A) → unique key (map f rows) ≡ unique key rows
  unfolding unique
  unique-map [] = refl
  unique-map (a ∷ rows) = rw (same a, has_key-map (key a) rows, unique-map rows) refl

pub find_version-none :
    (runtime_id version : String) (rows : List VersionRow)
    → find_version runtime_id version rows ≡ none
    → tally (is_pair runtime_id version) rows ≡ 0
unfolding find_version
find_version-none runtime_id version [] h = refl
find_version-none runtime_id version (r ∷ rows) h =
    ground (arith, find_version-none runtime_id version rows)

module _ (f : VersionRow → VersionRow) (rows : List VersionRow) (s : Sound rows) where
  pub mapped-Sound :
      ((i v : String) (r : VersionRow) → is_pair i v (f r) ≡ is_pair i v r)
      → ((r : VersionRow) → (f r).id ≡ r.id)
      → Sound (map f rows)
  mapped-Sound same kept = record {
    pairs =
        λ i v. omega (arith, tally-map (is_pair i v) (is_pair i v) f rows (same i v), s.pairs i v);
    ids = unique-map version_key f kept rows ∙ s.ids;
  }

-- a row of another runtime
abbrev pub is_elsewhere : String → VersionRow → Bool
is_elsewhere runtime_id r = not (is_of runtime_id r)

pub keep-map :
    (p : VersionRow → Bool) (f : VersionRow → VersionRow) (rows : List VersionRow)
    → ((r : VersionRow) → p (f r) ≡ p r)
    → ((r : VersionRow) → p r ≡ true → f r ≡ r)
    → keep p (map f rows) ≡ keep p rows
keep-map p f [] same fixed = refl
keep-map p f (r ∷ rows) same fixed = elim (Bool-cases (p r)) [
  | inl e ↦ rw (same r, e, fixed r e, keep-map p f rows same fixed) refl
  | inr e ↦ rw (same r, e, keep-map p f rows same fixed) refl
]

abbrev IsSound : Option (List VersionRow) → Type 0
IsSound none = Sound []
IsSound (some rows) = Sound rows

abbrev WhenSome : Option (List VersionRow) → Type 0
WhenSome o = (rows : List VersionRow) → o ≡ some rows → Sound rows

module _ (runtime_id : String) where
  pub appended-Sound :
      (id : String) (d : DetectedVersion) (rows : List VersionRow)
      → Sound rows
      → find_version runtime_id d.version rows ≡ none
      → has_key version_key id rows ≡ false
      → Sound (rows ++ detected_row runtime_id id d ∷ [])
  unfolding detected_row
  appended-Sound id d rows s h fresh = record {
    pairs = λ i v. ground (
      arith,
      s.pairs i v,
      tally-append (is_pair i v) rows (detected_row runtime_id id d ∷ []),
      find_version-none runtime_id d.version rows h,
      eq_iff runtime_id i,
      eq_iff d.version v,
    );
    ids = ground (arith, unique-append version_key rows (detected_row runtime_id id d), s.ids);
  }

  pub redetected-Sound :
      (id : String) (d : DetectedVersion) (rows : List VersionRow)
      → Sound rows
      → Sound (change version_key id (redetect d) rows)
  unfolding redetect
  redetected-Sound id d rows s = record {
    pairs = λ i v. omega (
      arith,
      tally-change (is_pair i v) version_key id (redetect d) rows (λ r. refl),
      s.pairs i v,
    );
    ids = unique-change version_key version_key id (redetect d) (λ r. refl) rows ∙ s.ids;
  }

  pub place-Sound :
      (id : String) (d : DetectedVersion) (rows : List VersionRow)
      → Sound rows
      → WhenSome (place runtime_id id d rows)
  unfolding place
  place-Sound id d rows s =
      on_option WhenSome (find_version runtime_id d.version rows) _ _
        (λ unknown.
          on_if WhenSome (has_key version_key id rows) _ _ (λ _ rows' h. cc)
            λ fresh rows' h. subst IsSound h (appended-Sound id d rows s unknown fresh))
        λ r _ rows' h. subst IsSound h (redetected-Sound r.id d rows s)

  pub place_all-Sound :
      (ds : List (String × DetectedVersion)) (rows : List VersionRow)
      → Sound rows
      → WhenSome (place_all runtime_id ds rows)
  unfolding place_all
  place_all-Sound [] rows s = λ rows' h. subst IsSound h s
  place_all-Sound ((id, d) ∷ ds) rows s =
      on_option WhenSome (place runtime_id id d rows) _ _ (λ _ rows' h. cc)
        λ placed e. place_all-Sound ds placed (place-Sound id d rows s placed e)

  pub missing-Sound :
      (rows : List VersionRow) → Sound rows → Sound (map (mark_missing runtime_id) rows)
  unfolding mark_missing
  missing-Sound rows s =
      mapped-Sound (mark_missing runtime_id) rows s (λ i v r. ground arith) (λ r. ground arith)
