-- ===== src/Deployment/Shell.antt =====
-- `shQuote` of internal/domain/deployment/engine.go, and how a POSIX shell reads one word.
use Prim.Native.Char.{Char, code}
use Prim.Native.String.{String, [], ◌∷◌, ◌++◌}
use mathlib.Core.Path.{◌≡◌, ◌∙◌, refl, sym, ap}
use mathlib.Core.Logic.{inl, inr}
use mathlib.Core.Bool.{Bool, true, ◌||◌}
use mathlib.Core.Option.{Option, none, some}
use native.Mathlib.Omega.{arith}
use Prim.Native.String.append
use text.Mathlib.TextLemmas.{append_assoc}
use text.Mathlib.TextEquality.{Char-path}
use alresia_voltpanel.Prelude.{◌==◌, if◌then◌else◌, Bool-cases}

abbrev quote_char : Char
quote_char = "'"

-- strings.ReplaceAll(s, "'", `'\''`)
unfoldable pub escape : String → String
escape [] = ""
escape (c ∷ s) =
    let rest = escape s in
    if code c == 39 then quote_char ∷ "\\" ∷ quote_char ∷ quote_char ∷ rest else c ∷ rest

unfoldable pub sh_quote : String → String
sh_quote s = quote_char ∷ (escape s ++ "'")

-- How the shell reads the next character: outside quotes, within single quotes, or after a backslash.
pub data Quoting : Type 0 where
  bare : Quoting
  quoted : Quoting
  escaped : Quoting

-- What ends an unquoted word: blanks, newlines and the operators `; & | < > ( )`.
unfoldable pub ends_word : Char → Bool
ends_word c =
    let n = code c in
    n == 32
    || n == 9
    || n == 10
    || n == 59
    || n == 38
    || n == 124
    || n == 60
    || n == 62
    || n == 40
    || n == 41

-- What an unquoted text may do besides: `" $ ` * ? [ #` and the like are left out of this reading.
unfoldable pub is_special : Char → Bool
is_special c =
    let n = code c in
    n == 34 || n == 36 || n == 96 || n == 42 || n == 63 || n == 91 || n == 35 || n == 126

abbrev pub push : Char → Option (String × String) → Option (String × String)
push c none = none
push c (some (word, rest)) = some (c ∷ word, rest)

-- The word that a shell reads from the front of a text, and what is left; `none` where the quoting
-- is not finished or something special stands outside it.
unfoldable pub read_word : Quoting → String → Option (String × String)
read_word bare [] = some ("", "")
read_word bare (c ∷ s) =
    let inside = read_word quoted s in
    let after_backslash = read_word escaped s in
    let onward = read_word bare s in
    if code c == 39
    then inside
    else if code c == 92
    then after_backslash
    else if ends_word c
    then some ("", c ∷ s)
    else if is_special c
    then none
    else push c onward
read_word quoted [] = none
read_word quoted (c ∷ s) =
    let outside = read_word bare s in
    let onward = read_word quoted s in if code c == 39 then outside else push c onward
read_word escaped [] = none
read_word escaped (c ∷ s) = push c (read_word bare s)

escape-append :
    (c : Char) (s t : String)
    → escape (c ∷ s) ++ t ≡ (
        if code c == 39
        then quote_char ∷ "\\" ∷ quote_char ∷ quote_char ∷ (escape s ++ t)
        else c ∷ (escape s ++ t))
unfolding escape
escape-append c s t = elim (Bool-cases (code c == 39)) [
  | inl e ↦ rw e (simp append.cons)
  | inr e ↦ rw e (append.cons c (escape s) t)
]

is_quote : (c : Char) → code c == 39 ≡ true → c ≡ quote_char
is_quote c e = Char-path c quote_char (ground arith)

push-some : (c d : Char) (s rest : String) → c ≡ d → push c (some (s, rest)) ≡ some (d ∷ s, rest)
push-some c d s rest e = cc

read_word-escape :
    (s rest : String)
    → read_word bare rest ≡ some ("", rest)
    → read_word quoted (escape s ++ (quote_char ∷ rest)) ≡ some (s, rest)
unfolding read_word escape
read_word-escape [] rest h = rw (append.nil (quote_char ∷ rest)) h
read_word-escape (c ∷ s) rest h = elim (Bool-cases (code c == 39)) [
  | inl e ↦ rw (escape-append c s (quote_char ∷ rest)) (
      rw e (
        rw (read_word-escape s rest h, read_word)
          (push-some quote_char c s rest (sym (is_quote c e)))))
  | inr e ↦
      rw (escape-append c s (quote_char ∷ rest)) (rw e (rw (e, read_word-escape s rest h) refl))
]

quoted_text :
    (s rest : String) → sh_quote s ++ rest ≡ quote_char ∷ (escape s ++ (quote_char ∷ rest))
unfolding sh_quote
quoted_text s rest =
    append.cons quote_char (escape s ++ "'") rest
    ∙ ap (λ t. quote_char ∷ t)
        (append_assoc (escape s) "'" rest
          ∙ ap (λ t. escape s ++ t)
              (append.cons quote_char [] rest ∙ ap (λ t. quote_char ∷ t) (append.nil rest)))

-- A shell that reads the quoted form of any text gets one word, the text itself, and goes on with
-- what stands behind it, provided that this does not carry on the word.
pub read_word-sh_quote :
    (s rest : String)
    → read_word bare rest ≡ some ("", rest)
    → read_word bare (sh_quote s ++ rest) ≡ some (s, rest)
unfolding read_word
read_word-sh_quote s rest h = rw (quoted_text s rest) (read_word-escape s rest h)
