-- ===== src/Prelude/Lists.antt =====
-- Lists measured by native numbers, and lists of names with Boolean membership.
use Prim.Native.Nat.{ℕ, zero, suc, ◌+◌, ◌≤◌, ◌<◌}
use Prim.Native.String.{String}
use mathlib.Core.Path.{◌≡◌, refl, ap}
use mathlib.Core.Logic.{◌⊎◌, inl, inr}
use mathlib.Core.Bool.{Bool, true, false, not, ◌&&◌, ◌||◌}
use mathlib.Core.List.{List, [], ◌∷◌, ◌++◌, map}
use native.Mathlib.Omega.{arith}
use text.Mathlib.Text.{◌==◌ as str_eq}
use text.Mathlib.TextEquality.{eq_iff}
use alresia_voltpanel.Prelude.Checks.{ltb, if◌then◌else◌, Bool-cases, str_eq_refl}

module _ {ℓ} {A : Type ℓ} where
  abbrev pub length : List A → ℕ
  length [] = 0
  length (x ∷ xs) = suc (length xs)

  pub length-append : (xs ys : List A) → length (xs ++ ys) ≡ length xs + length ys
  length-append [] ys = omega arith
  length-append (x ∷ xs) ys = omega (arith, length-append xs ys)

  abbrev pub drop : ℕ → List A → List A
  drop zero xs = xs
  drop (suc n) [] = []
  drop (suc n) (x ∷ xs) = drop n xs

  -- The elements that pass a test, in order.
  abbrev pub keep : (A → Bool) → List A → List A
  keep p [] = []
  keep p (x ∷ xs) = if p x then x ∷ keep p xs else keep p xs

  -- How many elements pass a test.
  abbrev pub tally : (A → Bool) → List A → ℕ
  tally p [] = 0
  tally p (x ∷ xs) = (if p x then 1 else 0) + tally p xs

  pub tally-append : (p : A → Bool) (xs ys : List A) → tally p (xs ++ ys) ≡ tally p xs + tally p ys
  tally-append p [] ys = omega arith
  tally-append p (x ∷ xs) ys = omega (arith, tally-append p xs ys)

  pub tally-le : (p : A → Bool) (xs : List A) → tally p xs ≤ length xs
  tally-le p [] = omega arith
  tally-le p (x ∷ xs) = ground (arith, tally-le p xs)

-- Whether a name is in a list.
abbrev pub elem : String → List String → Bool
elem a [] = false
elem a (x ∷ xs) = str_eq x a || elem a xs

pub elem-append : (a : String) (xs ys : List String) → elem a (xs ++ ys) ≡ (elem a xs || elem a ys)
elem-append a [] ys = refl
elem-append a (x ∷ xs) ys = ground (arith, elem-append a xs ys)

-- No name twice.
abbrev pub distinct : List String → Bool
distinct [] = true
distinct (x ∷ xs) = not (elem x xs) && distinct xs

pub elem-middle :
    (v d : String) (xs ys : List String) → elem v (xs ++ d ∷ ys) ≡ (str_eq d v || elem v (xs ++ ys))
elem-middle v d [] ys = refl
elem-middle v d (x ∷ xs) ys = ground (arith, elem-middle v d xs ys)

pub distinct-middle :
    (d : String) (xs ys : List String)
    → distinct (xs ++ d ∷ ys) ≡ (not (elem d (xs ++ ys)) && distinct (xs ++ ys))
distinct-middle d [] ys = refl
distinct-middle d (x ∷ xs) ys =
    ground (arith, elem-middle x d xs ys, distinct-middle d xs ys, eq_iff d x, eq_iff x d)

-- How often a name stands in a list.
abbrev pub occurrences : String → List String → ℕ
occurrences v = tally (λ x. str_eq x v)

pub elem_of_occurrences : (v : String) (xs : List String) → elem v xs ≡ ltb 0 (occurrences v xs)
elem_of_occurrences v [] = refl
elem_of_occurrences v (x ∷ xs) = ground (arith, elem_of_occurrences v xs)

pub elem-split :
    (a : String) (ys : List String)
    → elem a ys ≡ true
    → (p : List String) × (q : List String) × (ys ≡ p ++ a ∷ q)
elem-split a [] h = cc
elem-split a (y ∷ ys) h = elim (Bool-cases (str_eq y a)) [
  | inl e ↦ ([], ys, ap (λ z. z ∷ ys) ((eq_iff y a).0 e))
  | inr e ↦ let (p, q, r) = elem-split a ys (ground (arith, e)) in (y ∷ p, q, ap (λ zs. y ∷ zs) r)
]

-- Distinct names that all stand in another list are no more than that list.
pub distinct-length :
    (xs ys : List String)
    → distinct xs ≡ true
    → ((v : String) → elem v xs ≡ true → elem v ys ≡ true)
    → length xs ≤ length ys
distinct-length [] ys d s = omega arith
distinct-length (x ∷ xs) ys d s =
    let (p, q, r) = elem-split x ys (s x (ground (arith, str_eq_refl x))) in
    let shorter =
      distinct-length xs (p ++ q) (ground arith)
        (λ v m. ground (arith, s v, ap (elem v) r, elem-middle v x p q, eq_iff x v)) in
    omega (arith, shorter, ap length r, length-append p (x ∷ q), length-append p q)

module _ {ℓ} {A : Type ℓ} where
  pub length-keep : (p : A → Bool) (xs : List A) → length (keep p xs) ≡ tally p xs
  length-keep p [] = refl
  length-keep p (x ∷ xs) = ground (arith, length-keep p xs)

  pub length-map {κ} : {B : Type κ} (f : A → B) (xs : List A) → length (map f xs) ≡ length xs
  length-map f [] = refl
  length-map f (x ∷ xs) = ap suc (length-map f xs)

  pub List-cases : (xs : List A) → (xs ≡ []) ⊎ ((x : A) × (rest : List A) × (xs ≡ x ∷ rest))
  List-cases [] = inl refl
  List-cases (x ∷ xs) = inr (x, xs, refl)

pub elem-keep :
    (p : String → Bool) (v : String) (xs : List String) → elem v (keep p xs) ≡ (p v && elem v xs)
elem-keep p v [] = ground arith
elem-keep p v (x ∷ xs) = ground (arith, elem-keep p v xs, eq_iff x v)

module _ (p q : String → Bool) (le : (v : String) → p v ≡ true → q v ≡ true) where
  pub tally_mono : (xs : List String) → tally p xs ≤ tally q xs
  tally_mono [] = omega arith
  tally_mono (x ∷ xs) = ground (arith, tally_mono xs, le x)

  pub tally_strict :
      (a : String) (xs : List String)
      → q a ≡ true
      → p a ≡ false
      → elem a xs ≡ true
      → tally p xs < tally q xs
  tally_strict a [] qa pa h = cc
  tally_strict a (x ∷ xs) qa pa h = elim (Bool-cases (str_eq x a)) [
    | inl e ↦ ground (arith, tally_mono xs, (eq_iff x a).0 e)
    | inr e ↦ ground (arith, tally_strict a xs qa pa (ground (arith, e)), le x)
  ]
