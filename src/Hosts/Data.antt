-- ===== src/Hosts/Data.antt =====
-- The text of a line of data: an address, a tab, the names, and a comment.
use Prim.Native.String.append
use Prim.Native.String.{String, ◌∷◌, ◌++◌}
use text.Mathlib.TextLemmas.{append_assoc}
use alresia_voltpanel.Prelude.{true, false, some, ◌≡◌, refl, ap, sym, ◌∙◌, str_eq}
use alresia_voltpanel.Deployment.Text.{is_space, trim_left, trim_right, trim_space}
use alresia_voltpanel.Hosts.Text.{is_hash, any_char, before_hash, after_hash}
use alresia_voltpanel.Hosts.Words.{
  str_eq-cons, str_eq-append, any_char-append, trim_right-append, trim_right-cons,
  trim_right_trimmed, trim_left_trimmed, trim_right-space, trim_left-word, before_hash-append,
  after_hash-append,
}
use alresia_voltpanel.Hosts.Fields.{IsWord}

abbrev pub plain : String → String → String
plain ip names = ip ++ ("\t" ∷ names)

abbrev pub commented : String → String → String → String
commented ip names c = ip ++ ("\t" ∷ (names ++ ("\t" ∷ "#" ∷ " " ∷ c)))

pub plain_form : (ip names : String) → (ip ++ "\t") ++ names ≡ plain ip names
plain_form ip names =
    append_assoc ip "\t" names
    ∙ ap (λ t. ip ++ t) (append.cons "\t" "" names ∙ ap (λ t. "\t" ∷ t) (append.nil names))

mark : (c : String) → "\t# " ++ c ≡ "\t" ∷ "#" ∷ " " ∷ c
mark c =
    append.cons "\t" "# " c
    ∙ ap (λ t. "\t" ∷ t)
        (append.cons "#" " " c
          ∙ ap (λ t. "#" ∷ t) (append.cons " " "" c ∙ ap (λ t. " " ∷ t) (append.nil c)))

pub commented_form :
    (ip names c : String) → ((ip ++ "\t") ++ names) ++ ("\t# " ++ c) ≡ commented ip names c
commented_form ip names c =
    ap (λ t. t ++ ("\t# " ++ c)) (plain_form ip names)
    ∙ append_assoc ip ("\t" ∷ names) ("\t# " ++ c)
    ∙ ap (λ t. ip ++ t)
        (append.cons "\t" names ("\t# " ++ c) ∙ ap (λ t. "\t" ∷ (names ++ t)) (mark c))

module _ (ip names : String) (word : IsWord ip) (some_name : str_eq names "" ≡ false)
    (trimmed : trim_right names ≡ names) (no_hash : any_char is_hash names ≡ false) where
  plain_right : trim_right (plain ip names) ≡ plain ip names
  plain_right =
      trim_right-append ip ("\t" ∷ names) (trim_right-cons "\t" names trimmed some_name)
        (str_eq-cons "\t" names)

  pub plain_trim : trim_space (plain ip names) ≡ plain ip names
  unfolding trim_space
  plain_trim =
      ap trim_left plain_right ∙ trim_left-word ip ("\t" ∷ names) word.some_char word.no_space

  pub plain_no_hash : any_char is_hash (plain ip names) ≡ false
  unfolding any_char
  plain_no_hash = rw (any_char-append is_hash ip ("\t" ∷ names), word.no_hash) no_hash

  module _ (c : String) (some_c : str_eq c "" ≡ false) (c_trimmed : trim_space c ≡ c) where
    tail : String
    tail = "\t" ∷ "#" ∷ " " ∷ c

    pub commented_trim : trim_space (commented ip names c) ≡ commented ip names c
    unfolding trim_space
    commented_trim =
        let e : trim_right (" " ∷ c) ≡ " " ∷ c =
          trim_right-cons " " c (trim_right_trimmed c c_trimmed) some_c in
        let f : trim_right ("#" ∷ " " ∷ c) ≡ "#" ∷ " " ∷ c =
          trim_right-cons "#" (" " ∷ c) e (str_eq-cons " " c) in
        let g : trim_right ("\t" ∷ "#" ∷ " " ∷ c) ≡ "\t" ∷ "#" ∷ " " ∷ c =
          trim_right-cons "\t" ("#" ∷ " " ∷ c) f (str_eq-cons "#" (" " ∷ c)) in
        let n : str_eq ("\t" ∷ "#" ∷ " " ∷ c) "" ≡ false = str_eq-cons "\t" ("#" ∷ " " ∷ c) in
        let h : trim_right (names ++ ("\t" ∷ "#" ∷ " " ∷ c)) ≡ names ++ ("\t" ∷ "#" ∷ " " ∷ c) =
          trim_right-append names ("\t" ∷ "#" ∷ " " ∷ c) g n in
        let r : String = names ++ ("\t" ∷ "#" ∷ " " ∷ c) in
        let k : trim_right (ip ++ ("\t" ∷ r)) ≡ ip ++ ("\t" ∷ r) =
          trim_right-append ip ("\t" ∷ r)
            (trim_right-cons "\t" r h (str_eq-append names ("\t" ∷ "#" ∷ " " ∷ c) n))
            (str_eq-cons "\t" r) in
        ap trim_left k ∙ trim_left-word ip ("\t" ∷ r) word.some_char word.no_space

    pub commented_hash : any_char is_hash (commented ip names c) ≡ true
    unfolding any_char
    commented_hash =
        rw
          (
            any_char-append is_hash ip ("\t" ∷ (names ++ ("\t" ∷ "#" ∷ " " ∷ c))),
            word.no_hash,
            any_char-append is_hash names ("\t" ∷ "#" ∷ " " ∷ c),
            no_hash,
          )
          refl

    pub commented_body : trim_space (before_hash (commented ip names c)) ≡ plain ip names
    unfolding trim_space before_hash is_space
    commented_body =
        let tab : String = "\t" ∷ "" in
        let cut : before_hash (commented ip names c) ≡ ip ++ ("\t" ∷ (names ++ tab)) =
          before_hash-append ip ("\t" ∷ (names ++ ("\t" ∷ "#" ∷ " " ∷ c))) word.no_hash
          ∙ ap (λ t. ip ++ ("\t" ∷ t)) (before_hash-append names ("\t" ∷ "#" ∷ " " ∷ c) no_hash) in
        let moved : ip ++ ("\t" ∷ (names ++ tab)) ≡ plain ip names ++ tab =
          ap (λ t. ip ++ t) (sym (append.cons "\t" names tab))
          ∙ sym (append_assoc ip ("\t" ∷ names) tab) in
        let ends : trim_right (plain ip names ++ tab) ≡ plain ip names =
          trim_right-space (plain ip names) "\t" refl ∙ plain_right in
        ap trim_space (cut ∙ moved)
        ∙ ap trim_left ends
        ∙ trim_left-word ip ("\t" ∷ names) word.some_char word.no_space

    pub commented_after : after_hash (commented ip names c) ≡ some (" " ∷ c)
    unfolding after_hash
    commented_after =
        rw
          (
            after_hash-append ip ("\t" ∷ (names ++ ("\t" ∷ "#" ∷ " " ∷ c))) word.no_hash,
            after_hash-append names ("\t" ∷ "#" ∷ " " ∷ c) no_hash,
          )
          refl

    pub comment_trim : trim_space (" " ∷ c) ≡ c
    unfolding trim_space trim_left is_space
    comment_trim =
        ap trim_left (trim_right-cons " " c (trim_right_trimmed c c_trimmed) some_c)
        ∙ trim_left_trimmed c c_trimmed
