-- ===== src/Security/Tokens.antt =====
-- Which tokens Verify accepts.
use mathlib.Core.List.{List, [], ◌∷◌, ◌++◌}
use alresia_voltpanel.Prelude.{
  ℕ, zero, suc, ◌+◌, ◌/◌, ◌%◌, ◌^◌, ◌<◌, ◌≤◌, String, Bool, true, false, ◌&&◌, Option, none, some,
  ◌≡◌, refl, sym, ◌∙◌, ap, inl, inr, str_eq, eq_iff, arith, ◌==◌, length, length-append, drop,
  Bool-cases, Option-cases,
}
use alresia_voltpanel.Prelude.Int.{signed, lt_int}
use alresia_voltpanel.Storage.{second}
use alresia_voltpanel.Security.Sextets.{all_below, bytes_of}
use alresia_voltpanel.Security.Base64.{
  encode_to_string, decode_string, values, decode_string-encode_to_string,
}
use alresia_voltpanel.Security.Sessions.{
  session_nonce_len, session_mac_len, payload_len, put_uint64, uint64, same_bytes, first, payload,
  issue, accepts, verify,
}

pub uint64-put_uint64 : (v : ℕ) → v < 2 ^ 64 → uint64 (put_uint64 v) ≡ v
unfolding uint64 put_uint64
uint64-put_uint64 v h = omega arith

first-append : (n : ℕ) (xs ys : List ℕ) → length xs ≡ n → first n (xs ++ ys) ≡ xs
unfolding first
first-append zero [] ys h = refl
first-append zero (x ∷ xs) ys h = ground arith
first-append (suc n) [] ys h = ground arith
first-append (suc n) (x ∷ xs) ys h = ap (λ zs. x ∷ zs) (first-append n xs ys (omega (arith, h)))

drop-append : (n : ℕ) (xs ys : List ℕ) → length xs ≡ n → drop n (xs ++ ys) ≡ ys
drop-append zero [] ys h = refl
drop-append zero (x ∷ xs) ys h = ground arith
drop-append (suc n) [] ys h = ground arith
drop-append (suc n) (x ∷ xs) ys h = drop-append n xs ys (omega (arith, h))

same_bytes_refl : (xs : List ℕ) → same_bytes xs xs ≡ true
unfolding same_bytes
same_bytes_refl [] = refl
same_bytes_refl (x ∷ xs) = ground (arith, same_bytes_refl xs)

same_bytes_eq : (xs ys : List ℕ) → same_bytes xs ys ≡ true → xs ≡ ys
unfolding same_bytes
same_bytes_eq [] [] h = refl
same_bytes_eq [] (y ∷ ys) h = cc
same_bytes_eq (x ∷ xs) [] h = cc
same_bytes_eq (x ∷ xs) (y ∷ ys) h =
    let p : x ≡ y = ground (arith, h) in
    let q : xs ≡ ys = same_bytes_eq xs ys (ground (arith, h)) in rw (p, q) refl

all_below-append :
    (n : ℕ) (xs ys : List ℕ)
    → all_below n xs ≡ true
    → all_below n ys ≡ true
    → all_below n (xs ++ ys) ≡ true
unfolding all_below
all_below-append n [] ys h k = k
all_below-append n (x ∷ xs) ys h k = ground (arith, h, k, all_below-append n xs ys)

put_uint64-all_below : (v : ℕ) → all_below 256 (put_uint64 v) ≡ true
unfolding all_below put_uint64
put_uint64-all_below v = ground arith

length-put_uint64 : (v : ℕ) → length (put_uint64 v) ≡ 8
unfolding put_uint64
length-put_uint64 v = refl

first-drop : (n : ℕ) (xs : List ℕ) → first n xs ++ drop n xs ≡ xs
unfolding first
first-drop zero [] = refl
first-drop zero (x ∷ xs) = refl
first-drop (suc n) [] = refl
first-drop (suc n) (x ∷ xs) = ap (λ zs. x ∷ zs) (first-drop n xs)

length-first : (n k : ℕ) (xs : List ℕ) → length xs ≡ n + k → length (first n xs) ≡ n
unfolding first
length-first zero k [] h = refl
length-first zero k (x ∷ xs) h = refl
length-first (suc n) k [] h = omega (arith, h)
length-first (suc n) k (x ∷ xs) h = omega (arith, length-first n k xs (omega (arith, h)))

decode_string-nil : decode_string "" ≡ some []
unfolding decode_string values bytes_of
decode_string-nil = refl

size : Option (List ℕ) → ℕ
size none = 0
size (some xs) = length xs

decoded_size :
    (token : String) (p q : List ℕ)
    → decode_string token ≡ some (p ++ q)
    → length p ≡ payload_len
    → str_eq token "" ≡ false
unfolding size
decoded_size token p q decoded h = elim (Bool-cases (str_eq token "")) [
  | inr e ↦ e
  | inl e ↦
      let f : some (p ++ q) ≡ some [] =
        sym decoded ∙ ap decode_string ((eq_iff token "").0 e) ∙ decode_string-nil in
      let n : length (p ++ q) ≡ 0 = ap size f in
      let m : 24 ≤ 0 = omega (arith, n, h, length-append p q) in ground arith
]

module _ (mac : List ℕ → List ℕ) where
  -- what the payload of a token says of an instant
  abbrev pub unexpired : ℕ → List ℕ → Bool
  unexpired now p = lt_int (now / second) (signed (uint64 (first 8 p)))

  -- bytes that are a payload with its signature are accepted until they expire
  accepts_signed :
      (now : ℕ) (p : List ℕ)
      → length p ≡ payload_len
      → length (mac p) ≡ session_mac_len
      → accepts mac now (p ++ mac p) ≡ unexpired now p
  unfolding accepts
  accepts_signed now p hp hm =
      let l : length (p ++ mac p) ≡ 56 = omega (arith, length-append p (mac p), hp, hm) in
      let d : drop payload_len (p ++ mac p) ≡ mac p = drop-append 24 p (mac p) hp in
      let f : first payload_len (p ++ mac p) ≡ p = first-append 24 p (mac p) hp in
      rw (l, d, f, same_bytes_refl (mac p)) refl

  verify_bytes :
      (now : ℕ) (token : String) (p : List ℕ)
      → decode_string token ≡ some (p ++ mac p)
      → length p ≡ payload_len
      → length (mac p) ≡ session_mac_len
      → verify mac now token ≡ unexpired now p
  unfolding verify
  verify_bytes now token p decoded hp hm =
      rw (verify, decoded_size token p (mac p) decoded hp, decoded) (accepts_signed now p hp hm)

  -- At any later instant, `Verify` answers for a token that `Issue` made what a comparison of
  -- the second of that instant with the expiry as an int64 gives, where the expiry is the
  -- second of issue plus ttl, wrapped to 64 bits; given a nonce of 16 bytes and a MAC whose
  -- sums are 32 bytes.
  pub verify-issue :
      (now ttl later : ℕ) (nonce : List ℕ)
      → length nonce ≡ session_nonce_len
      → all_below 256 nonce ≡ true
      → ((m : List ℕ) → (length (mac m) ≡ session_mac_len) × (all_below 256 (mac m) ≡ true))
      → verify mac later (issue mac now ttl nonce)
        ≡ lt_int (later / second) (signed ((now + ttl) / second % 2 ^ 64))
  unfolding issue payload
  verify-issue now ttl later nonce hn hb sums =
      let v : ℕ = (now + ttl) / second % 2 ^ 64 in
      let p : List ℕ = put_uint64 v ++ nonce in
      let l : length (put_uint64 v) ≡ 8 = length-put_uint64 v in
      let hp : length p ≡ payload_len = omega (arith, length-append (put_uint64 v) nonce, hn, l) in
      let b : all_below 256 p ≡ true =
        all_below-append 256 (put_uint64 v) nonce (put_uint64-all_below v) hb in
      let small : all_below 256 (p ++ mac p) ≡ true = all_below-append 256 p (mac p) b (sums p).1 in
      let e : uint64 (first 8 p) ≡ v =
        ap uint64 (first-append 8 (put_uint64 v) nonce l) ∙ uint64-put_uint64 v (omega arith) in
      verify_bytes later (encode_to_string (p ++ mac p)) p
        (decode_string-encode_to_string (p ++ mac p) small) hp (sums p).0
      ∙ ap (λ n. lt_int (later / second) (signed n)) e

  -- A token that `Verify` accepts decodes to a payload of 24 bytes followed by the MAC of that
  -- payload, whose first 8 bytes are an expiry that is not reached.
  pub verify-signed :
      (now : ℕ) (token : String)
      → verify mac now token ≡ true
      → (p : List ℕ) × (decode_string token ≡ some (p ++ mac p))
        × (length p ≡ payload_len)
        × (unexpired now p ≡ true)
  unfolding verify accepts
  verify-signed now token h = elim (Bool-cases (str_eq token "")) [
    | inl e ↦ let bad : false ≡ true = rw (verify, e) at h in cc
    | inr e ↦ elim (Option-cases (decode_string token)) [
      | inl f ↦ let bad : false ≡ true = rw (verify, e, f) at h in cc
      | inr (raw, f) ↦
          let p : List ℕ = first payload_len raw in
          let k : (length raw == 56 && same_bytes (drop payload_len raw) (mac p) && unexpired now p)
              ≡ true =
            rw (verify, e, f) at h in
          let same : drop payload_len raw ≡ mac p =
            same_bytes_eq (drop payload_len raw) (mac p) (ground (arith, k)) in
          let whole : raw ≡ p ++ mac p = sym (first-drop payload_len raw) ∙ ap (λ q. p ++ q) same in
          (p, f ∙ ap some whole, length-first 24 32 raw (ground (arith, k)), ground (arith, k))
    ]
  ]
