-- ===== src/Deployment/Text.antt =====
-- The standard library's `strings` as internal/domain/deployment/engine.go uses it.
use Prim.Native.Nat.{ℕ, zero, suc, ◌-◌}
use Prim.Native.Char.{Char, code}
use Prim.Native.String.{String, [], ◌∷◌, ◌++◌, count}
use mathlib.Core.Bool.{Bool, true, false, ◌&&◌, ◌||◌}
use text.Mathlib.Text.{◌==◌ as str_eq}
use alresia_voltpanel.Prelude.{◌==◌, leb, if◌then◌else◌}

-- unicode.IsSpace
unfoldable pub is_space : Char → Bool
is_space c =
    let n = code c in
    leb 9 n && leb n 13
    || n == 32
    || n == 133
    || n == 160
    || n == 5760
    || leb 8192 n && leb n 8202
    || n == 8232
    || n == 8233
    || n == 8239
    || n == 8287
    || n == 12288

unfoldable pub trim_left : String → String
trim_left [] = ""
trim_left (c ∷ s) = let rest = trim_left s in if is_space c then rest else c ∷ s

unfoldable pub trim_right : String → String
trim_right [] = ""
trim_right (c ∷ s) =
    let rest = trim_right s in if is_space c && str_eq rest "" then "" else c ∷ rest

unfoldable pub trim_space : String → String
trim_space s = trim_left (trim_right s)

unfoldable pub has_prefix : String → String → Bool
has_prefix s [] = true
has_prefix [] (d ∷ p) = false
has_prefix (c ∷ s) (d ∷ p) = code c == code d && has_prefix s p

-- `s` without its first characters, as many as `p` has
unfoldable pub drop_like : String → String → String
drop_like s [] = s
drop_like [] (d ∷ p) = ""
drop_like (c ∷ s) (d ∷ p) = drop_like s p

unfoldable pub trim_prefix : String → String → String
trim_prefix s p = if has_prefix s p then drop_like s p else s

-- `skip` characters of an occurrence still lie ahead
unfoldable pub replace_from : String → String → ℕ → String → String
replace_from old new skip [] = ""
replace_from old new (suc skip) (c ∷ s) = replace_from old new skip s
replace_from old new zero (c ∷ s) =
    let after = replace_from old new (count old - 1) s in
    let rest = replace_from old new 0 s in if has_prefix (c ∷ s) old then new ++ after else c ∷ rest

-- An empty `old` matches before each character and at the end.
unfoldable pub interleave : String → String → String
interleave new [] = new
interleave new (c ∷ s) = new ++ (c ∷ interleave new s)

unfoldable pub replace_all : String → String → String → String
replace_all s old new = if str_eq old "" then interleave new s else replace_from old new 0 s
