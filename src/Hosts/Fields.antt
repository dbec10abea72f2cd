-- ===== src/Hosts/Fields.antt =====
-- strings.Fields and strings.Split on texts of words and of lines.
use Prim.Native.Char.{Char}
use Prim.Native.String.append
use Prim.Native.String.{String, [], ◌∷◌, ◌++◌}
use mathlib.Core.List
use alresia_voltpanel.Prelude.{
  true, false, List, ◌≡◌, refl, ap, sym, ◌∙◌, inl, inr, if◌then◌else◌, str_eq, Bool-cases, on_if,
  arith,
}
use alresia_voltpanel.Deployment.Text.{is_space}
use alresia_voltpanel.Hosts.Text.{
  is_hash, is_line_end, any_char, fields, join, split_lines, word_ends, grow,
}
use alresia_voltpanel.Hosts.Words.{str_eq-cons}

-- a text of one character or more without spaces and without '#'
pub record IsWord (w : String) : Type 0 where
  pub some_char : str_eq w "" ≡ false
  pub no_space : any_char is_space w ≡ false
  pub no_hash : any_char is_hash w ≡ false

abbrev pub AreWords : List String → Type 0
AreWords List.[] = true ≡ true
AreWords (List.◌∷◌ w ws) = IsWord w × AreWords ws

-- a word before a space is the first field
pub fields_word :
    (w : String) (c : Char) (s : String)
    → str_eq w "" ≡ false
    → any_char is_space w ≡ false
    → is_space c ≡ true
    → fields (w ++ (c ∷ s)) ≡ List.◌∷◌ w (fields s)
unfolding fields any_char word_ends grow
fields_word [] c s n free sp = cc
fields_word (d ∷ []) c s n free sp =
    let f : is_space d ≡ false = ground (arith, free) in
    rw (append.cons d "" (c ∷ s), append.nil (c ∷ s), f, sp) refl
fields_word (d ∷ e ∷ w) c s n free sp =
    let f : is_space d ≡ false = ground (arith, free) in
    let g : is_space e ≡ false = ground (arith, free) in
    let k : any_char is_space (e ∷ w) ≡ false = ground (arith, free) in
    let r : fields (e ∷ (w ++ (c ∷ s))) ≡ List.◌∷◌ (e ∷ w) (fields s) =
      rw (append.cons e w (c ∷ s)) at (fields_word (e ∷ w) c s (str_eq-cons e w) k sp) in
    rw (append.cons d (e ∷ w) (c ∷ s), append.cons e w (c ∷ s), f) (rw (r, g) refl)

fields_alone :
    (w : String) → str_eq w "" ≡ false → any_char is_space w ≡ false → fields w ≡ List.◌∷◌ w List.[]
unfolding fields any_char word_ends grow
fields_alone [] n free = cc
fields_alone (d ∷ []) n free = let f : is_space d ≡ false = ground (arith, free) in rw f refl
fields_alone (d ∷ e ∷ w) n free =
    let f : is_space d ≡ false = ground (arith, free) in
    let g : is_space e ≡ false = ground (arith, free) in
    let k : any_char is_space (e ∷ w) ≡ false = ground (arith, free) in
    let r : fields (e ∷ w) ≡ List.◌∷◌ (e ∷ w) List.[] = fields_alone (e ∷ w) (str_eq-cons e w) k in
    rw (f, r, g) refl

pub blank : (t : String) → " " ++ t ≡ " " ∷ t
blank t = append.cons " " "" t ∙ ap (λ s. " " ∷ s) (append.nil t)

fields-nil : fields "" ≡ List.[]
unfolding fields
fields-nil = refl

pub fields-join : (ws : List String) → AreWords ws → fields (join " " ws) ≡ ws
unfolding join is_space
fields-join List.[] h = fields-nil
fields-join (List.◌∷◌ w List.[]) (h, _) = fields_alone w h.some_char h.no_space
fields-join (List.◌∷◌ w (List.◌∷◌ v ws)) (h, k) =
    ap (λ t. fields (w ++ t)) (blank (join " " (List.◌∷◌ v ws)))
    ∙ fields_word w " " (join " " (List.◌∷◌ v ws)) h.some_char h.no_space refl
    ∙ ap (λ xs. List.◌∷◌ w xs) (fields-join (List.◌∷◌ v ws) k)

grow-AreWords :
    (c : Char) (ws : List String)
    → is_space c ≡ false
    → is_hash c ≡ false
    → AreWords ws
    → AreWords (grow c ws)
unfolding grow any_char
grow-AreWords c List.[] s h k = (
  record {
    some_char = str_eq-cons c "";
    no_space = ground (arith, s);
    no_hash = ground (arith, h);
  },
  refl,
)
grow-AreWords c (List.◌∷◌ w ws) s h (k, ks) = (
  record {
    some_char = str_eq-cons c w;
    no_space = ground (arith, s, k.no_space);
    no_hash = ground (arith, h, k.no_hash);
  },
  ks,
)

pub fields-AreWords : (s : String) → any_char is_hash s ≡ false → AreWords (fields s)
unfolding fields any_char
fields-AreWords [] h = refl
fields-AreWords (c ∷ s) h =
    let n : is_hash c ≡ false = ground (arith, h) in
    let rest : AreWords (fields s) = fields-AreWords s (ground (arith, h)) in
    on_if AreWords (is_space c) (fields s)
      (if word_ends s then List.◌∷◌ (c ∷ "") (fields s) else grow c (fields s)) (λ _. rest)
      (λ f.
        on_if AreWords (word_ends s) (List.◌∷◌ (c ∷ "") (fields s)) (grow c (fields s))
          (λ _. (
            record {
              some_char = str_eq-cons c "";
              no_space = ground (arith, f);
              no_hash = ground (arith, n);
            },
            rest,
          ))
          (λ _. grow-AreWords c (fields s) f n rest))

-- texts without line ends
abbrev pub AreLines : List String → Type 0
AreLines List.[] = true ≡ true
AreLines (List.◌∷◌ w ws) = (any_char is_line_end w ≡ false) × AreLines ws

grow-AreLines :
    (c : Char) (ws : List String) → is_line_end c ≡ false → AreLines ws → AreLines (grow c ws)
unfolding grow any_char
grow-AreLines c List.[] h k = (ground (arith, h), refl)
grow-AreLines c (List.◌∷◌ w ws) h (k, ks) = (ground (arith, h, k), ks)

pub split_lines-AreLines : (s : String) → AreLines (split_lines s)
unfolding split_lines any_char
split_lines-AreLines [] = (refl, refl)
split_lines-AreLines (c ∷ s) =
    on_if AreLines (is_line_end c) (List.◌∷◌ "" (split_lines s)) (grow c (split_lines s))
      (λ _. (refl, split_lines-AreLines s))
      (λ f. grow-AreLines c (split_lines s) f (split_lines-AreLines s))

split_line :
    (w s : String)
    → any_char is_line_end w ≡ false
    → split_lines (w ++ ("\n" ∷ s)) ≡ List.◌∷◌ w (split_lines s)
unfolding split_lines any_char grow
split_line [] s h = rw (append.nil ("\n" ∷ s)) refl
split_line (d ∷ w) s h =
    let f : is_line_end d ≡ false = ground (arith, h) in
    rw (append.cons d w ("\n" ∷ s), f, split_line w s (ground (arith, h))) refl

split_alone : (w : String) → any_char is_line_end w ≡ false → split_lines w ≡ List.◌∷◌ w List.[]
unfolding split_lines any_char grow
split_alone [] h = refl
split_alone (d ∷ w) h =
    let f : is_line_end d ≡ false = ground (arith, h) in
    rw (f, split_alone w (ground (arith, h))) refl

line_end : (t : String) → "\n" ++ t ≡ "\n" ∷ t
line_end t = append.cons "\n" "" t ∙ ap (λ s. "\n" ∷ s) (append.nil t)

pub split_lines-join :
    (w : String) (ws : List String)
    → AreLines (List.◌∷◌ w ws)
    → split_lines (join "\n" (List.◌∷◌ w ws)) ≡ List.◌∷◌ w ws
unfolding join
split_lines-join w List.[] (h, _) = split_alone w h
split_lines-join w (List.◌∷◌ v ws) (h, k) =
    ap (λ t. split_lines (w ++ t)) (line_end (join "\n" (List.◌∷◌ v ws)))
    ∙ split_line w (join "\n" (List.◌∷◌ v ws)) h
    ∙ ap (λ xs. List.◌∷◌ w xs) (split_lines-join v ws k)

split_lines-some :
    (s : String) → (x : String) × ((xs : List String) × (split_lines s ≡ List.◌∷◌ x xs))
unfolding split_lines grow
split_lines-some [] = ("", (List.[], refl))
split_lines-some (c ∷ s) = elim (Bool-cases (is_line_end c)) [
  | inl e ↦ ("", (split_lines s, rw e refl))
  | inr e ↦ let (x, (xs, f)) = split_lines-some s in (c ∷ x, (xs, rw (e, f) refl))
]

-- a line end after a text ends one more line, which is empty
pub split_lines-end :
    (s : String) → split_lines (s ++ "\n") ≡ List.◌++◌ (split_lines s) (List.◌∷◌ "" List.[])
unfolding split_lines grow
split_lines-end [] = refl
split_lines-end (c ∷ s) = elim (Bool-cases (is_line_end c)) [
  | inl e ↦ rw (append.cons c s "\n", e) (ap (λ xs. List.◌∷◌ "" xs) (split_lines-end s))
  | inr e ↦
      let (x, (xs, f)) = split_lines-some s in
      rw (append.cons c s "\n", e)
        (ap (grow c) (split_lines-end s ∙ ap (λ ys. List.◌++◌ ys (List.◌∷◌ "" List.[])) f)
          ∙ sym (ap (λ ys. List.◌++◌ (grow c ys) (List.◌∷◌ "" List.[])) f))
]
