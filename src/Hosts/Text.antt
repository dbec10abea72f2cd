-- ===== src/Hosts/Text.antt =====
-- The standard library's `strings` as hosts.go uses it. The case folding of Unicode is an argument of
-- EqualFold: `fold` gives every character of a class the same number.
use Prim.Native.Char.{Char, code}
use Prim.Native.String.{String, [], ◌∷◌, ◌++◌}
use alresia_voltpanel.Prelude.{
  ℕ, Bool, true, false, ◌&&◌, ◌||◌, Option, none, some, List, ◌==◌, if◌then◌else◌, str_eq,
}
use alresia_voltpanel.Deployment.Text.{is_space}

abbrev pub is_hash : Char → Bool
is_hash c = code c == 35

abbrev pub is_line_end : Char → Bool
is_line_end c = code c == 10

unfoldable pub grow : Char → List String → List String
grow c List.[] = List.◌∷◌ (c ∷ "") List.[]
grow c (List.◌∷◌ x xs) = List.◌∷◌ (c ∷ x) xs

-- strings.Split(s, "\n")
unfoldable pub split_lines : String → List String
unfolding grow
split_lines [] = List.◌∷◌ "" List.[]
split_lines (c ∷ s) =
    let rest = split_lines s in if is_line_end c then List.◌∷◌ "" rest else grow c rest

-- strings.Join
unfoldable pub join : String → List String → String
join sep List.[] = ""
join sep (List.◌∷◌ x List.[]) = x
join sep (List.◌∷◌ x (List.◌∷◌ y xs)) = x ++ (sep ++ join sep (List.◌∷◌ y xs))

-- no character of a word follows
unfoldable pub word_ends : String → Bool
word_ends [] = true
word_ends (c ∷ s) = is_space c

-- strings.Fields
unfoldable pub fields : String → List String
unfolding grow word_ends
fields [] = List.[]
fields (c ∷ s) =
    let rest = fields s in
    if is_space c then rest else if word_ends s then List.◌∷◌ (c ∷ "") rest else grow c rest

-- what stands before the first '#', and after it where there is one
unfoldable pub before_hash : String → String
before_hash [] = ""
before_hash (c ∷ s) = let rest = before_hash s in if is_hash c then "" else c ∷ rest

unfoldable pub after_hash : String → Option String
after_hash [] = none
after_hash (c ∷ s) = let rest = after_hash s in if is_hash c then some s else rest

unfoldable pub starts_hash : String → Bool
starts_hash [] = false
starts_hash (c ∷ s) = is_hash c

unfoldable pub ends_line : String → Bool
ends_line [] = false
ends_line (c ∷ s) = let rest = ends_line s in if str_eq s "" then is_line_end c else rest

unfoldable pub any_char : (Char → Bool) → String → Bool
any_char p [] = false
any_char p (c ∷ s) = p c || any_char p s

unfoldable pub equal_fold : (Char → ℕ) → String → String → Bool
equal_fold fold [] [] = true
equal_fold fold [] (d ∷ t) = false
equal_fold fold (c ∷ s) [] = false
equal_fold fold (c ∷ s) (d ∷ t) = fold c == fold d && equal_fold fold s t
