-- ===== src/Prelude/Table.antt =====
-- A table of the database: rows of a type `A` in the order of insertion, with a text as their key.
use alresia_voltpanel.Prelude.Checks.{if◌then◌else◌, Bool-cases, leb}
use Prim.Native.Nat.{ℕ}
use Prim.Native.String.{String}
use mathlib.Core.Path.{◌≡◌, refl}
use mathlib.Core.Logic.{inl, inr}
use mathlib.Core.Bool.{Bool, true, false, not, ◌&&◌, ◌||◌}
use mathlib.Core.Option.{Option, none, some}
use mathlib.Core.List.{List, [], ◌∷◌, ◌++◌}
use native.Mathlib.Omega.{arith}
use text.Mathlib.Text.{◌==◌ as str_eq}
use text.Mathlib.TextEquality.{eq_iff}

-- oldest first, ties in the order of insertion
unfoldable pub insert_by : {A : Type 0} → (A → ℕ) → A → List A → List A
insert_by at a [] = a ∷ []
insert_by at a (b ∷ rows) =
    let rest = insert_by at a rows in if leb (at a) (at b) then a ∷ b ∷ rows else b ∷ rest

unfoldable pub order_by : {A : Type 0} → (A → ℕ) → List A → List A
unfolding insert_by
order_by at [] = []
order_by at (a ∷ rows) = insert_by at a (order_by at rows)

module _ {A : Type 0} (key : A → String) where
  -- SELECT ... WHERE key = id
  unfoldable pub find_by : String → List A → Option A
  find_by id [] = none
  find_by id (a ∷ rows) = if str_eq (key a) id then some a else find_by id rows

  -- whether a statement on that key affects a row
  unfoldable pub has_key : String → List A → Bool
  has_key id [] = false
  has_key id (a ∷ rows) = str_eq (key a) id || has_key id rows

  -- UPDATE ... WHERE key = id
  unfoldable pub change : String → (A → A) → List A → List A
  change id f [] = []
  change id f (a ∷ rows) = (if str_eq (key a) id then f a else a) ∷ change id f rows

  -- DELETE ... WHERE key = id
  unfoldable pub delete_by : String → List A → List A
  delete_by id [] = []
  delete_by id (a ∷ rows) =
      let rest = delete_by id rows in if str_eq (key a) id then rest else a ∷ rest

  pub find_by-append :
      (id : String) (rows : List A) (a : A)
      → find_by id (rows ++ a ∷ [])
        ≡ (if has_key id rows then find_by id rows else if str_eq (key a) id then some a else none)
  unfolding find_by has_key
  find_by-append id [] a = refl
  find_by-append id (b ∷ rows) a = ground (arith, find_by-append id rows a)

  pub has_key-append :
      (id : String) (rows : List A) (a : A)
      → has_key id (rows ++ a ∷ []) ≡ (has_key id rows || str_eq (key a) id)
  unfolding has_key
  has_key-append id [] a = ground arith
  has_key-append id (b ∷ rows) a = ground (arith, has_key-append id rows a)

  pub find_by-change :
      (id v : String) (f : A → A) (rows : List A)
      → ((a : A) → key (f a) ≡ key a)
      → find_by v (change id f rows)
        ≡ (elim (find_by v rows) [ none ↦ none | some a ↦ some (if str_eq id v then f a else a) ])
  unfolding find_by change
  find_by-change id v f [] same = refl
  find_by-change id v f (a ∷ rows) same = ground (
    arith,
    find_by-change id v f rows same,
    same a,
    eq_iff (key a) id,
    eq_iff (key a) v,
    eq_iff id v,
  )

  pub has_key-delete_by :
      (id v : String) (rows : List A)
      → has_key v (delete_by id rows) ≡ (if str_eq id v then false else has_key v rows)
  unfolding has_key delete_by
  has_key-delete_by id v [] = ground arith
  has_key-delete_by id v (a ∷ rows) =
      ground (arith, has_key-delete_by id v rows, eq_iff (key a) id, eq_iff (key a) v, eq_iff id v)

  pub find_by-delete_by :
      (id v : String) (rows : List A)
      → find_by v (delete_by id rows) ≡ (if str_eq id v then none else find_by v rows)
  unfolding find_by delete_by
  find_by-delete_by id v [] = ground arith
  find_by-delete_by id v (a ∷ rows) =
      ground (arith, find_by-delete_by id v rows, eq_iff (key a) id, eq_iff (key a) v, eq_iff id v)

  pub find_by-none :
      (id : String) (rows : List A) → has_key id rows ≡ false → find_by id rows ≡ none
  unfolding find_by has_key
  find_by-none id [] h = refl
  find_by-none id (a ∷ rows) h = ground (arith, find_by-none id rows)

  pub find_by-has_key :
      (id : String) (rows : List A) → has_key id rows ≡ true → (a : A) × (find_by id rows ≡ some a)
  unfolding find_by has_key
  find_by-has_key id [] h = cc
  find_by-has_key id (a ∷ rows) h = elim (Bool-cases (str_eq (key a) id)) [
    | inl e ↦ (a, ground (arith, e))
    | inr e ↦ let (b, f) = find_by-has_key id rows (ground (arith, e)) in (b, ground (arith, e, f))
  ]

  -- a UNIQUE column
  unfoldable pub unique : List A → Bool
  unfolding has_key
  unique [] = true
  unique (a ∷ rows) = not (has_key (key a) rows) && unique rows

  pub unique-append :
      (rows : List A) (a : A)
      → unique (rows ++ a ∷ []) ≡ (unique rows && not (has_key (key a) rows))
  unfolding unique has_key
  unique-append [] a = ground arith
  unique-append (b ∷ rows) a = ground (
    arith,
    unique-append rows a,
    has_key-append (key b) rows a,
    eq_iff (key a) (key b),
    eq_iff (key b) (key a),
  )

-- A column `other` when rows are changed or deleted by the column `key`.
module _ {A : Type 0} (key other : A → String) (id : String) where
  module _ (f : A → A) (same : (a : A) → other (f a) ≡ other a) where
    pub has_key-change :
        (v : String) (rows : List A) → has_key other v (change key id f rows) ≡ has_key other v rows
    unfolding has_key change
    has_key-change v [] = refl
    has_key-change v (a ∷ rows) = elim (Bool-cases (str_eq (key a) id)) [
      | inl e ↦ rw (e, has_key-change v rows, same a) refl
      | inr e ↦ rw (e, has_key-change v rows) refl
    ]

    pub unique-change : (rows : List A) → unique other (change key id f rows) ≡ unique other rows
    unfolding unique change
    unique-change [] = refl
    unique-change (a ∷ rows) = elim (Bool-cases (str_eq (key a) id)) [
      | inl e ↦ rw (e, same a, has_key-change (other a) rows, unique-change rows) refl
      | inr e ↦ rw (e, has_key-change (other a) rows, unique-change rows) refl
    ]

  has_key_less :
      (v : String) (rows : List A)
      → has_key other v rows ≡ false
      → has_key other v (delete_by key id rows) ≡ false
  unfolding has_key delete_by
  has_key_less v [] h = refl
  has_key_less v (a ∷ rows) h = ground (arith, has_key_less v rows)

  pub unique-delete_by :
      (rows : List A) → unique other rows ≡ true → unique other (delete_by key id rows) ≡ true
  unfolding unique delete_by
  unique-delete_by [] h = refl
  unique-delete_by (a ∷ rows) h = ground (arith, unique-delete_by rows, has_key_less (other a) rows)
