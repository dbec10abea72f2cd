-- ===== src/Security/Base64.antt =====
-- base64.RawURLEncoding of Go's encoding/base64: the texts of the symbols of groups of six bits.
use Prim.Native.Char.{Char, code}
use Prim.Native.String.{String, [], ◌∷◌, char_at}
use alresia_voltpanel.Prelude.{
  ℕ, zero, suc, ◌<◌, ◌≤◌, ap, not, Bool, true, false, ◌&&◌, ◌||◌, Option, none, some, List, ◌≡◌,
  refl, inl, inr, if◌then◌else◌, ◌==◌, arith, Bool-cases,
}
use alresia_voltpanel.Security.Sextets.{
  sextets, bytes_of, all_below, sextets-all_below, bytes_of-sextets,
}

abbrev alphabet : String
alphabet = "ABCDEFGHIJKLMNOPQRSTUVWXYZabcdefghijklmnopqrstuvwxyz0123456789-_"

unfoldable pub symbols : List ℕ → String
symbols List.[] = ""
symbols (List.◌∷◌ x xs) = char_at alphabet x ∷ symbols xs

unfoldable place : Char → String → ℕ → Option ℕ
place c [] n = none
place c (d ∷ s) n = let rest = place c s (suc n) in if code c == code d then some n else rest

unfoldable pub value : Char → Option ℕ
unfolding place
value c = place c alphabet 0

unfoldable pub is_newline : Char → Bool
is_newline c = code c == 10 || code c == 13

unfoldable before : Option ℕ → Option (List ℕ) → Option (List ℕ)
before none xs = none
before (some x) none = none
before (some x) (some xs) = some (List.◌∷◌ x xs)

-- the decoder passes over line ends
unfoldable pub values : String → Option (List ℕ)
unfolding before value is_newline
values [] = some List.[]
values (c ∷ s) = let rest = values s in if is_newline c then rest else before (value c) rest

reads : Bool → Option ℕ → ℕ → Bool
reads b none x = false
reads b (some y) x = not b && (y == x)

reads-true : (b : Bool) (o : Option ℕ) (x : ℕ) → reads b o x ≡ true → (b ≡ false) × (o ≡ some x)
unfolding reads
reads-true b none x h = cc
reads-true b (some y) x h = let e : y ≡ x = ground (arith, h) in (ground (arith, h), ap some e)

-- the symbol of a group of six bits is no line end, and stands for it
round : ℕ → Bool
round x = reads (is_newline (char_at alphabet x)) (value (char_at alphabet x)) x

all_round : ℕ → Bool
all_round zero = true
all_round (suc n) = round n && all_round n

all_round-below : (n x : ℕ) → all_round n ≡ true → x < n → round x ≡ true
unfolding all_round
all_round-below zero x h p = let bad : 1 ≤ 0 = omega arith in ground arith
all_round-below (suc n) x h p = elim (Bool-cases (x == n)) [
  | inl e ↦ let q : x ≡ n = ground (arith, e) in rw q (ground (arith, h))
  | inr e ↦ all_round-below n x (ground (arith, h)) (ground (arith, e, p))
]

checked : all_round 64 ≡ true
unfolding all_round round reads value is_newline
checked = refl

value-symbol :
    (x : ℕ)
    → x < 64
    → (is_newline (char_at alphabet x) ≡ false) × (value (char_at alphabet x) ≡ some x)
unfolding round
value-symbol x p =
    reads-true (is_newline (char_at alphabet x)) (value (char_at alphabet x)) x
      (all_round-below 64 x checked p)

pub values-symbols : (xs : List ℕ) → all_below 64 xs ≡ true → values (symbols xs) ≡ some xs
unfolding values symbols all_below before
values-symbols List.[] h = refl
values-symbols (List.◌∷◌ x xs) h =
    let (n, v) = value-symbol x (ground (arith, h)) in
    rw (n, v, values-symbols xs (ground (arith, h))) refl

-- base64.RawURLEncoding
unfoldable pub encode_to_string : List ℕ → String
encode_to_string bytes = symbols (sextets bytes)

unfoldable pub decode_string : String → Option (List ℕ)
decode_string s = elim (values s) [ none ↦ none | some xs ↦ bytes_of xs ]

pub decode_string-encode_to_string :
    (bytes : List ℕ)
    → all_below 256 bytes ≡ true
    → decode_string (encode_to_string bytes) ≡ some bytes
unfolding decode_string encode_to_string
decode_string-encode_to_string bytes h =
    rw (decode_string, values-symbols (sextets bytes) (sextets-all_below bytes h))
      (bytes_of-sextets bytes h)
