-- ===== src/Hosts/Reread.antt =====
-- What is read back from a hosts file that was written.
use Prim.Native.Char.{Char}
use Prim.Native.String
use mathlib.Core.List.{List, [], ◌∷◌, ◌++◌, map}
use alresia_voltpanel.Prelude.{
  String, Bool, true, false, ◌||◌, Option, none, some, ◌≡◌, refl, ap, sym, ◌∙◌, inl, inr, str_eq,
  eq_iff, concat, Bool-cases, Option-cases, on_if, arith, subst,
}
use alresia_voltpanel.Deployment.Text.{is_space, trim_left, trim_right, trim_space}
use alresia_voltpanel.Hosts.Text.{
  is_hash, is_line_end, any_char, before_hash, after_hash, starts_hash, fields, join, split_lines,
  ends_line,
}
use alresia_voltpanel.Hosts.Words.{
  any_char-append, any_char-trim_left, any_char-trim_right, any_char-weaker, line_end_space,
  trim_space_idem, before_hash-free,
}
use alresia_voltpanel.Hosts.Fields.{
  AreWords, AreLines, fields-AreWords, split_lines-AreLines, split_lines-join, split_lines-end,
}
use alresia_voltpanel.Hosts.Data.{plain_form, commented_form}
use alresia_voltpanel.Hosts.Lines.{IsWritable, hosts-Written, parse-render_data}
use alresia_voltpanel.Hosts.Provider.{
  DataLine, Line, comment_of, body_of, data_of, parse_trimmed, parse_data_line, parse_line,
  parse_all, render_data, render_line, with_line_end, render,
}

-- what a parse makes of a text can be written
abbrev pub CanWrite : Option DataLine → Type 0
CanWrite none = true ≡ true
CanWrite (some d) = IsWritable d

data_of-CanWrite :
    (ws : List String) (comment : String)
    → AreWords ws
    → trim_space comment ≡ comment
    → any_char is_line_end comment ≡ false
    → CanWrite (data_of ws comment)
unfolding data_of
data_of-CanWrite [] comment h t l = refl
data_of-CanWrite (ip ∷ []) comment h t l = refl
data_of-CanWrite (ip ∷ w ∷ ws) comment (h, k) t l = record {
  ip_word = h;
  first_host = w;
  other_hosts = ws;
  hosts_are = refl;
  host_words = k;
  comment_trimmed = t;
  comment_line = l;
  managed_is = refl;
}

trim_space_free :
    (p : Char → Bool) (s : String) → any_char p s ≡ false → any_char p (trim_space s) ≡ false
unfolding trim_space
trim_space_free p s h = any_char-trim_left p (trim_right s) (any_char-trim_right p s h)

comment_of_trimmed : (o : Option String) → trim_space (comment_of o) ≡ comment_of o
unfolding comment_of trim_space trim_left trim_right
comment_of_trimmed none = refl
comment_of_trimmed (some s) = trim_space_idem s

after_hash_line :
    (s : String)
    → any_char is_line_end s ≡ false
    → any_char is_line_end (comment_of (after_hash s)) ≡ false
unfolding after_hash any_char comment_of
after_hash_line String.[] h = refl
after_hash_line (String.◌∷◌ c s) h = elim (Bool-cases (is_hash c)) [
  | inl e ↦ rw (after_hash, e) (trim_space_free is_line_end s (ground (arith, h)))
  | inr e ↦ rw (after_hash, e) (after_hash_line s (ground (arith, h)))
]

body_of_free : (s : String) → any_char is_hash (body_of s) ≡ false
unfolding body_of
body_of_free s =
    on_if (λ t. any_char is_hash t ≡ false) (any_char is_hash s) _ _
      (λ _. trim_space_free is_hash (before_hash s) (before_hash-free s)) (λ f. f)

pub parse_data_line-CanWrite :
    (raw : String) → any_char is_line_end raw ≡ false → CanWrite (parse_data_line raw)
unfolding parse_data_line parse_trimmed
parse_data_line-CanWrite raw h =
    let t : String = trim_space raw in
    on_if CanWrite (str_eq t "" || starts_hash t) none
      (data_of (fields (body_of t)) (comment_of (after_hash t))) (λ _. refl)
      (λ _.
        data_of-CanWrite (fields (body_of t)) (comment_of (after_hash t))
          (fields-AreWords (body_of t) (body_of_free t)) (comment_of_trimmed (after_hash t))
          (after_hash_line t (trim_space_free is_line_end raw h)))

-- a line that is written in one line, and parsed from it
pub record IsSound (l : Line) : Type 0 where
  pub parsed : parse_data_line (render_line l) ≡ l.data_line
  pub one_line : any_char is_line_end (render_line l) ≡ false

abbrev pub AllSound : List Line → Type 0
AllSound [] = true ≡ true
AllSound (l ∷ lines) = IsSound l × AllSound lines

render_data_line : (d : DataLine) → IsWritable d → any_char is_line_end (render_data d) ≡ false
unfolding render_data any_char
render_data_line d w =
    let j : String = join " " d.hosts in
    let n = hosts-Written d w in
    let ip : any_char is_line_end d.ip ≡ false =
      any_char-weaker is_line_end is_space line_end_space d.ip w.ip_word.no_space in
    on_if (λ t. any_char is_line_end t ≡ false) (str_eq d.comment "") _ _
      (λ _.
        ap (any_char is_line_end) (plain_form d.ip j)
        ∙ rw (any_char-append is_line_end d.ip (String.◌∷◌ "\t" j), ip, n.no_line_end) refl)
      (λ _.
        ap (any_char is_line_end) (commented_form d.ip j d.comment)
        ∙ rw
            (
              any_char-append is_line_end d.ip (
                  String.◌∷◌ "\t"
                    (String.◌++◌ j (String.◌∷◌ "\t" (String.◌∷◌ "#" (String.◌∷◌ " " d.comment))))),
              ip,
              any_char-append is_line_end j
                  (String.◌∷◌ "\t" (String.◌∷◌ "#" (String.◌∷◌ " " d.comment))),
              n.no_line_end,
              w.comment_line,
            )
            refl)

pub data-IsSound : (l : Line) (d : DataLine) → l.data_line ≡ some d → IsWritable d → IsSound l
unfolding render_line
data-IsSound l d e w = record {
  parsed = rw (render_line, e) (parse-render_data d w);
  one_line = rw (render_line, e) (render_data_line d w);
}

pub parse_line-IsSound :
    (raw : String) → any_char is_line_end raw ≡ false → IsSound (parse_line raw)
unfolding parse_line render_line
parse_line-IsSound raw h = elim (Option-cases (parse_data_line raw)) [
  | inl e ↦ record {
    parsed = rw (parse_line, render_line, e) e;
    one_line = rw (parse_line, render_line, e) h;
  }
  | inr (d, e) ↦
      data-IsSound (parse_line raw) d e (subst CanWrite e (parse_data_line-CanWrite raw h))
]

parse_lines-AllSound : (raws : List String) → AreLines raws → AllSound (map parse_line raws)
parse_lines-AllSound [] h = refl
parse_lines-AllSound (raw ∷ raws) (h, hs) = (parse_line-IsSound raw h, parse_lines-AllSound raws hs)

pub parse_all-AllSound : (content : String) → AllSound (parse_all content)
unfolding parse_all
parse_all-AllSound content =
    on_if AllSound (str_eq content "") [] (map parse_line (split_lines content)) (λ _. refl)
      (λ _. parse_lines-AllSound (split_lines content) (split_lines-AreLines content))

-- the lines of data, in order
unfoldable pub prepend : Option DataLine → List DataLine → List DataLine
prepend none ds = ds
prepend (some d) ds = d ∷ ds

unfoldable pub data_lines : List Line → List DataLine
unfolding prepend
data_lines [] = []
data_lines (l ∷ lines) = prepend l.data_line (data_lines lines)

empty_parsed : parse_data_line "" ≡ none
unfolding parse_data_line trim_left trim_right
empty_parsed = refl

data_lines-end :
    (raws : List String)
    → data_lines (map parse_line (raws ++ "" ∷ [])) ≡ data_lines (map parse_line raws)
unfolding data_lines parse_line
data_lines-end [] = ap (λ o. prepend o []) empty_parsed
data_lines-end (raw ∷ raws) = ap (prepend (parse_data_line raw)) (data_lines-end raws)

data_lines-rendered :
    (lines : List Line)
    → AllSound lines
    → data_lines (map parse_line (map render_line lines)) ≡ data_lines lines
unfolding data_lines parse_line
data_lines-rendered [] h = refl
data_lines-rendered (l ∷ lines) (h, hs) =
    ap (λ o. prepend o (data_lines (map parse_line (map render_line lines)))) h.parsed
    ∙ ap (prepend l.data_line) (data_lines-rendered lines hs)

rendered-AreLines : (lines : List Line) → AllSound lines → AreLines (map render_line lines)
rendered-AreLines [] h = refl
rendered-AreLines (l ∷ lines) (h, hs) = (h.one_line, rendered-AreLines lines hs)

no_data : data_lines (map parse_line (split_lines "")) ≡ []
unfolding data_lines split_lines parse_line
no_data = ap (λ o. prepend o []) empty_parsed

data_lines-parse_all :
    (content : String)
    → data_lines (parse_all content) ≡ data_lines (map parse_line (split_lines content))
unfolding parse_all data_lines
data_lines-parse_all content = elim (Bool-cases (str_eq content "")) [
  | inl e ↦
      rw (parse_all, e)
        (sym (
          ap (λ t. data_lines (map parse_line (split_lines t))) ((eq_iff content "").0 e)
          ∙ no_data))
  | inr e ↦ rw (parse_all, e) refl
]

data_lines-with_line_end :
    (s : String)
    → data_lines (map parse_line (split_lines (with_line_end s)))
      ≡ data_lines (map parse_line (split_lines s))
unfolding with_line_end
data_lines-with_line_end s =
    on_if
      (λ t.
        data_lines (map parse_line (split_lines t)) ≡ data_lines (map parse_line (split_lines s)))
      (str_eq s "" || ends_line s) s (concat s "\n") (λ _. refl)
      (λ _.
        ap (λ raws. data_lines (map parse_line raws)) (split_lines-end s)
        ∙ data_lines-end (split_lines s))

joined :
    (lines : List Line)
    → AllSound lines
    → data_lines (map parse_line (split_lines (join "\n" (map render_line lines))))
      ≡ data_lines lines
unfolding data_lines join
joined [] h = no_data
joined (l ∷ lines) h =
    ap (λ raws. data_lines (map parse_line raws))
      (split_lines-join (render_line l) (map render_line lines) (rendered-AreLines (l ∷ lines) h))
    ∙ data_lines-rendered (l ∷ lines) h

pub data_lines-reread :
    (lines : List Line) → AllSound lines → data_lines (parse_all (render lines)) ≡ data_lines lines
unfolding render
data_lines-reread lines h =
    data_lines-parse_all (with_line_end (join "\n" (map render_line lines)))
    ∙ data_lines-with_line_end (join "\n" (map render_line lines))
    ∙ joined lines h
