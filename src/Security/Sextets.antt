-- ===== src/Security/Sextets.antt =====
-- The groups of six bits of a list of bytes, as Go's encoding/base64 makes them without padding.
use alresia_voltpanel.Prelude.{
  ℕ, ◌+◌, ◌*◌, ◌/◌, ◌%◌, ◌<◌, Bool, true, ◌&&◌, Option, none, some, List, [], ◌∷◌, ◌≡◌, refl, ltb,
  arith,
}

unfoldable pub sextets : List ℕ → List ℕ
sextets [] = []
sextets (a ∷ []) = (a / 4) ∷ (a % 4 * 16) ∷ []
sextets (a ∷ b ∷ []) = (a / 4) ∷ (a % 4 * 16 + b / 16) ∷ (b % 16 * 4) ∷ []
sextets (a ∷ b ∷ c ∷ bytes) =
    (a / 4) ∷ (a % 4 * 16 + b / 16) ∷ (b % 16 * 4 + c / 64) ∷ (c % 64) ∷ sextets bytes

-- three bytes before others that are decoded
unfoldable behind : ℕ → ℕ → ℕ → Option (List ℕ) → Option (List ℕ)
behind a b c none = none
behind a b c (some bytes) = some (a ∷ b ∷ c ∷ bytes)

-- the bits that are left over are not looked at
unfoldable pub bytes_of : List ℕ → Option (List ℕ)
unfolding behind
bytes_of [] = some []
bytes_of (x ∷ []) = none
bytes_of (x ∷ y ∷ []) = some ((x * 4 + y / 16) ∷ [])
bytes_of (x ∷ y ∷ z ∷ []) = some ((x * 4 + y / 16) ∷ (y % 16 * 16 + z / 4) ∷ [])
bytes_of (x ∷ y ∷ z ∷ w ∷ rest) =
    behind (x * 4 + y / 16) (y % 16 * 16 + z / 4) (z % 4 * 64 + w) (bytes_of rest)

-- all below a bound
unfoldable pub all_below : ℕ → List ℕ → Bool
all_below n [] = true
all_below n (x ∷ xs) = ltb x n && all_below n xs

pub sextets-all_below :
    (bytes : List ℕ) → all_below 256 bytes ≡ true → all_below 64 (sextets bytes) ≡ true
unfolding sextets all_below
sextets-all_below [] h = refl
sextets-all_below (a ∷ []) h = ground (arith, h)
sextets-all_below (a ∷ b ∷ []) h = ground (arith, h)
sextets-all_below (a ∷ b ∷ c ∷ bytes) h = ground (arith, h, sextets-all_below bytes)

pub bytes_of-sextets :
    (bytes : List ℕ) → all_below 256 bytes ≡ true → bytes_of (sextets bytes) ≡ some bytes
unfolding bytes_of sextets all_below
bytes_of-sextets [] h = refl
bytes_of-sextets (a ∷ []) h = let p : a / 4 * 4 + a % 4 * 16 / 16 ≡ a = omega arith in rw p refl
bytes_of-sextets (a ∷ b ∷ []) h =
    let hb : b < 256 = ground (arith, h) in
    let p : a / 4 * 4 + (a % 4 * 16 + b / 16) / 16 ≡ a = omega arith in
    let q : (a % 4 * 16 + b / 16) % 16 * 16 + b % 16 * 4 / 4 ≡ b = omega arith in rw (p, q) refl
bytes_of-sextets (a ∷ b ∷ c ∷ bytes) h =
    let hb : b < 256 = ground (arith, h) in
    let hc : c < 256 = ground (arith, h) in
    let p : a / 4 * 4 + (a % 4 * 16 + b / 16) / 16 ≡ a = omega arith in
    let q : (a % 4 * 16 + b / 16) % 16 * 16 + (b % 16 * 4 + c / 64) / 4 ≡ b = omega arith in
    let r : (b % 16 * 4 + c / 64) % 4 * 64 + c % 64 ≡ c = omega arith in
    rw (p, q, r, bytes_of-sextets bytes (ground (arith, h))) refl
