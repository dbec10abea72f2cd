-- ===== src/Security/Sessions.antt =====
-- internal/security/auth.go. The HMAC of a message under the secret is an argument, `mac`; instants
-- are nanoseconds, and a byte is a number below 256.
use mathlib.Core.List.{List, [], ◌∷◌, ◌++◌}
use alresia_voltpanel.Prelude.{
  ℕ, zero, suc, ◌+◌, ◌*◌, ◌/◌, ◌%◌, ◌^◌, String, Bool, true, false, ◌&&◌, none, some, str_eq,
  if◌then◌else◌, ◌==◌, length, drop,
}
use alresia_voltpanel.Prelude.Int.{signed, lt_int}
use alresia_voltpanel.Storage.{second}
use alresia_voltpanel.Security.Base64.{encode_to_string, decode_string}

abbrev pub session_nonce_len : ℕ
session_nonce_len = 16

abbrev pub session_mac_len : ℕ
session_mac_len = 32

abbrev pub payload_len : ℕ
payload_len = 8 + session_nonce_len

-- binary.BigEndian.PutUint64
unfoldable pub put_uint64 : ℕ → List ℕ
put_uint64 v =
    (v / 2 ^ 56 % 256)
    ∷ (v / 2 ^ 48 % 256)
    ∷ (v / 2 ^ 40 % 256)
    ∷ (v / 2 ^ 32 % 256)
    ∷ (v / 2 ^ 24 % 256)
    ∷ (v / 2 ^ 16 % 256)
    ∷ (v / 2 ^ 8 % 256)
    ∷ (v % 256)
    ∷ []

-- binary.BigEndian.Uint64
unfoldable pub uint64_onto : ℕ → List ℕ → ℕ
uint64_onto v [] = v
uint64_onto v (b ∷ bytes) = uint64_onto (v * 256 + b) bytes

unfoldable pub uint64 : List ℕ → ℕ
unfolding uint64_onto
uint64 bytes = uint64_onto 0 bytes

unfoldable pub same_bytes : List ℕ → List ℕ → Bool
same_bytes [] [] = true
same_bytes [] (y ∷ ys) = false
same_bytes (x ∷ xs) [] = false
same_bytes (x ∷ xs) (y ∷ ys) = x == y && same_bytes xs ys

unfoldable pub first : ℕ → List ℕ → List ℕ
first zero xs = []
first (suc n) [] = []
first (suc n) (x ∷ xs) = x ∷ first n xs

unfoldable pub payload : ℕ → ℕ → List ℕ → List ℕ
unfolding put_uint64
payload now ttl nonce = put_uint64 ((now + ttl) / second % 2 ^ 64) ++ nonce

module _ (mac : List ℕ → List ℕ) where
  -- `nonce` is what rand.Read gives
  unfoldable pub issue : ℕ → ℕ → List ℕ → String
  issue now ttl nonce = encode_to_string (payload now ttl nonce ++ mac (payload now ttl nonce))

  unfoldable pub accepts : ℕ → List ℕ → Bool
  accepts now raw =
      length raw == payload_len + session_mac_len
      && same_bytes (drop payload_len raw) (mac (first payload_len raw))
      && lt_int (now / second) (signed (uint64 (first 8 (first payload_len raw))))

  unfoldable pub verify : ℕ → String → Bool
  unfolding accepts
  verify now token =
      let decoded : Bool = elim (decode_string token) [
        | none ↦ false
        | some raw ↦ accepts now raw
      ] in
      if str_eq token "" then false else decoded
