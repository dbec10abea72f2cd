-- ===== src/Tests/Security.antt =====
-- internal/security at one session and a small tree of files.
use alresia_voltpanel.Prelude.{
  ℕ, zero, suc, ◌+◌, ◌*◌, ◌/◌, ◌%◌, ◌^◌, String, Bool, true, false, ◌&&◌, some, List, [], ◌∷◌, ◌++◌,
  ◌≡◌, refl, str_eq, if◌then◌else◌, failed, done, length, arith,
}
use alresia_voltpanel.Prelude.Int.{lt_int, signed}
use alresia_voltpanel.Prelude.Paths.{FilePath}
use alresia_voltpanel.Storage.{second}
use alresia_voltpanel.Security.Sextets.{sextets, all_below}
use alresia_voltpanel.Security.Base64.{symbols, encode_to_string, decode_string}
use alresia_voltpanel.Security.Sessions.{issue, verify, session_mac_len, payload_len}
use alresia_voltpanel.Security.Tokens.{unexpired, verify-issue, verify-signed}
use alresia_voltpanel.Security.Sandbox.{
  Evaluated, real, not_exist, Sandbox, absolute, resolve_existing_ancestor, resolve, joined_path,
  escapes,
}
use alresia_voltpanel.Security.Containment.{Located, Within, resolve-Located}

unfoldable repeated : ℕ → ℕ → List ℕ
repeated zero b = []
repeated (suc n) b = b ∷ repeated n b

unfoldable total : List ℕ → ℕ
total [] = 0
total (b ∷ bytes) = b + total bytes

-- a checksum in the place of the HMAC
abbrev mac : List ℕ → List ℕ
mac m = repeated 32 (total m % 256)

abbrev nonce : List ℕ
nonce = repeated 16 7

sums : (m : List ℕ) → (length (mac m) ≡ session_mac_len) × (all_below 256 (mac m) ≡ true)
unfolding repeated all_below
sums m = (refl, ground arith)

nonce-all_below : all_below 256 nonce ≡ true
unfolding repeated all_below
nonce-all_below = refl

nonce_len : length nonce ≡ 16
unfolding repeated
nonce_len = refl

encoded : encode_to_string (255 ∷ 254 ∷ []) ≡ "__4"
unfolding encode_to_string symbols sextets
encoded = refl

abbrev token : String
token = issue mac (100 * second) (50 * second) nonce

verify-issue_example :
    verify mac (149 * second) token
    ≡ lt_int (149 * second / second) (signed ((100 * second + 50 * second) / second % 2 ^ 64))
verify-issue_example =
    verify-issue mac (100 * second) (50 * second) (149 * second) nonce nonce_len nonce-all_below
      sums

accepted : verify mac (149 * second) token ≡ true
accepted = verify-issue_example

verify-signed_example :
    (p : List ℕ) × (decode_string token ≡ some (p ++ mac p))
    × (length p ≡ payload_len)
    × (unexpired mac (149 * second) p ≡ true)
verify-signed_example = verify-signed mac (149 * second) token accepted

unfoldable same_parts : List String → List String → Bool
same_parts [] [] = true
same_parts [] (y ∷ ys) = false
same_parts (x ∷ xs) [] = false
same_parts (x ∷ xs) (y ∷ ys) = str_eq x y && same_parts xs ys

-- /srv with a directory `site` and a link `out` to /etc
abbrev tree : FilePath → Evaluated
tree p =
    if same_parts p.parts ("srv" ∷ [])
    then real p
    else if same_parts p.parts ("srv" ∷ "site" ∷ [])
    then real p
    else if same_parts p.parts ("srv" ∷ "out" ∷ [])
    then real (absolute ("etc" ∷ []))
    else not_exist

abbrev sandbox : Sandbox
sandbox = record { root = absolute ("srv" ∷ []) }

abbrev relative : List String → FilePath
relative parts = record { rooted = false; parts = parts }

outside : resolve tree sandbox (relative ("out" ∷ "passwd" ∷ [])) ≡ failed escapes
unfolding resolve resolve_existing_ancestor same_parts
outside = refl

above : resolve tree sandbox (relative ("site" ∷ ".." ∷ ".." ∷ "etc" ∷ [])) ≡ failed escapes
unfolding resolve resolve_existing_ancestor same_parts
above = refl

new_file :
    resolve tree sandbox (relative ("site" ∷ "." ∷ "new.txt" ∷ []))
    ≡ done (absolute ("srv" ∷ "site" ∷ "new.txt" ∷ []))
unfolding resolve resolve_existing_ancestor same_parts
new_file = refl

resolve-Located_example :
    (absolute ("srv" ∷ "site" ∷ "new.txt" ∷ [])
      ≡ joined_path sandbox (relative ("site" ∷ "." ∷ "new.txt" ∷ [])))
    × ((target : FilePath) × Located tree (absolute ("srv" ∷ "site" ∷ "new.txt" ∷ [])) target
        × Within sandbox.root target)
resolve-Located_example =
    resolve-Located tree sandbox (relative ("site" ∷ "." ∷ "new.txt" ∷ []))
      (absolute ("srv" ∷ "site" ∷ "new.txt" ∷ [])) new_file
