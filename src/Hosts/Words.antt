-- ===== src/Hosts/Words.antt =====
-- Words, trimmed texts and the fields of a text.
use Prim.Native.Char.{Char}
use Prim.Native.String.append
use Prim.Native.String.compare
use Prim.Native.String.{String, [], ◌∷◌, ◌++◌}
use text.Mathlib.TextLemmas.{tail-eq_of_cons-eq}
use alresia_voltpanel.Prelude.{
  none, Bool, true, false, ◌&&◌, ◌||◌, ◌≡◌, refl, ap, sym, ◌∙◌, inl, inr, str_eq, Bool-cases, on_if,
  arith,
}
use alresia_voltpanel.Deployment.Text.{is_space, trim_left, trim_right, trim_space}
use alresia_voltpanel.Hosts.Text.{
  is_hash, is_line_end, any_char, before_hash, after_hash, starts_hash,
}

pub str_eq-cons : (c : Char) (s : String) → str_eq (c ∷ s) "" ≡ false
str_eq-cons c s = rw (compare.cons-nil c s) refl

pub str_eq-append : (s t : String) → str_eq t "" ≡ false → str_eq (s ++ t) "" ≡ false
str_eq-append [] t h = rw (append.nil t) h
str_eq-append (c ∷ s) t h = rw (append.cons c s t) (str_eq-cons c (s ++ t))

module _ (p : Char → Bool) where
  pub any_char-append : (s t : String) → any_char p (s ++ t) ≡ (any_char p s || any_char p t)
  unfolding any_char
  any_char-append [] t = rw (append.nil t) refl
  any_char-append (c ∷ s) t = rw (append.cons c s t, any_char-append s t) (ground arith)

  pub any_char-trim_left : (s : String) → any_char p s ≡ false → any_char p (trim_left s) ≡ false
  unfolding any_char trim_left
  any_char-trim_left [] h = refl
  any_char-trim_left (c ∷ s) h = ground (arith, h, any_char-trim_left s)

  pub any_char-trim_right : (s : String) → any_char p s ≡ false → any_char p (trim_right s) ≡ false
  unfolding any_char trim_right
  any_char-trim_right [] h = refl
  any_char-trim_right (c ∷ s) h =
      on_if (λ x. any_char p x ≡ false) (is_space c && str_eq (trim_right s) "") ""
        (c ∷ trim_right s) (λ _. refl) (λ _. ground (arith, h, any_char-trim_right s))

  pub any_char-before_hash :
      (s : String) → any_char p s ≡ false → any_char p (before_hash s) ≡ false
  unfolding any_char before_hash
  any_char-before_hash [] h = refl
  any_char-before_hash (c ∷ s) h =
      on_if (λ x. any_char p x ≡ false) (is_hash c) "" (c ∷ before_hash s) (λ _. refl)
        (λ _. ground (arith, h, any_char-before_hash s))

module _ (p q : Char → Bool) (weaker : (c : Char) → p c ≡ true → q c ≡ true) where
  pub any_char-weaker : (s : String) → any_char q s ≡ false → any_char p s ≡ false
  unfolding any_char
  any_char-weaker [] h = refl
  any_char-weaker (c ∷ s) h = ground (arith, h, weaker c, any_char-weaker s)

pub line_end_space : (c : Char) → is_line_end c ≡ true → is_space c ≡ true
unfolding is_space
line_end_space c h = ground (arith, h)

-- a text without spaces is as it is when its end is trimmed
pub trim_right-word : (w : String) → any_char is_space w ≡ false → trim_right w ≡ w
unfolding trim_right any_char
trim_right-word [] h = refl
trim_right-word (c ∷ w) h =
    let n : is_space c ≡ false = ground (arith, h) in
    rw (n, trim_right-word w (ground (arith, h))) refl

pub trim_right-append :
    (s t : String) → trim_right t ≡ t → str_eq t "" ≡ false → trim_right (s ++ t) ≡ s ++ t
unfolding trim_right
trim_right-append [] t h n = rw (append.nil t) h
trim_right-append (c ∷ s) t h n =
    rw (append.cons c s t, trim_right-append s t h n, str_eq-append s t n) (ground arith)

pub trim_right_idem : (s : String) → trim_right (trim_right s) ≡ trim_right s
unfolding trim_right
trim_right_idem [] = refl
trim_right_idem (c ∷ s) =
    on_if (λ x. trim_right x ≡ x) (is_space c && str_eq (trim_right s) "") "" (c ∷ trim_right s)
      (λ _. refl) (λ n. rw (trim_right_idem s, n) refl)

trim_left_idem : (s : String) → trim_left (trim_left s) ≡ trim_left s
unfolding trim_left
trim_left_idem [] = refl
trim_left_idem (c ∷ s) =
    on_if (λ x. trim_left x ≡ x) (is_space c) (trim_left s) (c ∷ s) (λ _. trim_left_idem s)
      (λ n. rw n refl)

trim_right-tail : (c : Char) (s : String) → trim_right (c ∷ s) ≡ c ∷ s → trim_right s ≡ s
unfolding trim_right
trim_right-tail c s h = elim (Bool-cases (is_space c && str_eq (trim_right s) "")) [
  | inl e ↦
      let g : "" ≡ c ∷ s = rw e at h in
      let b : true ≡ false = ap (λ t. str_eq t "") g ∙ str_eq-cons c s in cc
  | inr e ↦ tail-eq_of_cons-eq (rw e at h)
]

trim_right-trim_left : (s : String) → trim_right s ≡ s → trim_right (trim_left s) ≡ trim_left s
unfolding trim_left
trim_right-trim_left [] h = h
trim_right-trim_left (c ∷ s) h =
    on_if (λ x. trim_right x ≡ x) (is_space c) (trim_left s) (c ∷ s)
      (λ _. trim_right-trim_left s (trim_right-tail c s h)) (λ n. h)

pub trim_space_idem : (s : String) → trim_space (trim_space s) ≡ trim_space s
unfolding trim_space
trim_space_idem s =
    ap trim_left (trim_right-trim_left (trim_right s) (trim_right_idem s))
    ∙ trim_left_idem (trim_right s)

-- before and after the first '#'
pub before_hash-append :
    (s t : String) → any_char is_hash s ≡ false → before_hash (s ++ t) ≡ s ++ before_hash t
unfolding before_hash any_char
before_hash-append [] t h = rw (append.nil t, append.nil (before_hash t)) refl
before_hash-append (c ∷ s) t h =
    let n : is_hash c ≡ false = ground (arith, h) in
    rw
      (
        append.cons c s t,
        append.cons c s (before_hash t),
        n,
        before_hash-append s t (ground (arith, h)),
      )
      refl

pub after_hash-append :
    (s t : String) → any_char is_hash s ≡ false → after_hash (s ++ t) ≡ after_hash t
unfolding after_hash any_char
after_hash-append [] t h = rw (append.nil t) refl
after_hash-append (c ∷ s) t h =
    let n : is_hash c ≡ false = ground (arith, h) in
    rw (append.cons c s t, n) (after_hash-append s t (ground (arith, h)))

pub before_hash-free : (s : String) → any_char is_hash (before_hash s) ≡ false
unfolding before_hash any_char
before_hash-free [] = refl
before_hash-free (c ∷ s) =
    on_if (λ x. any_char is_hash x ≡ false) (is_hash c) "" (c ∷ before_hash s) (λ _. refl)
      (λ n. ground (arith, n, before_hash-free s))

pub after_hash-free : (s : String) → any_char is_hash s ≡ false → after_hash s ≡ none
unfolding after_hash any_char
after_hash-free [] h = refl
after_hash-free (c ∷ s) h =
    let n : is_hash c ≡ false = ground (arith, h) in rw n (after_hash-free s (ground (arith, h)))

pub trim_right-cons :
    (c : Char) (s : String) → trim_right s ≡ s → str_eq s "" ≡ false → trim_right (c ∷ s) ≡ c ∷ s
unfolding trim_right
trim_right-cons c s h n = rw (h, n) (ground arith)

-- a text that is trimmed on both sides is trimmed on each
pub trim_right_trimmed : (s : String) → trim_space s ≡ s → trim_right s ≡ s
unfolding trim_space
trim_right_trimmed s h =
    ap trim_right (sym h) ∙ trim_right-trim_left (trim_right s) (trim_right_idem s) ∙ h

pub trim_left_trimmed : (s : String) → trim_space s ≡ s → trim_left s ≡ s
unfolding trim_space
trim_left_trimmed s h = ap trim_left (sym (trim_right_trimmed s h)) ∙ h

pub trim_right-space :
    (s : String) (c : Char) → is_space c ≡ true → trim_right (s ++ (c ∷ "")) ≡ trim_right s
unfolding trim_right
trim_right-space [] c h = rw (append.nil (c ∷ ""), h) refl
trim_right-space (d ∷ s) c h = rw (append.cons d s (c ∷ ""), trim_right-space s c h) refl

-- a text that begins with a word
pub trim_left-word :
    (w s : String) → str_eq w "" ≡ false → any_char is_space w ≡ false → trim_left (w ++ s) ≡ w ++ s
unfolding trim_left any_char
trim_left-word [] s n h = cc
trim_left-word (c ∷ w) s n h =
    let f : is_space c ≡ false = ground (arith, h) in rw (append.cons c w s, f) refl

pub starts_hash-word :
    (w s : String) → str_eq w "" ≡ false → any_char is_hash w ≡ false → starts_hash (w ++ s) ≡ false
unfolding starts_hash any_char
starts_hash-word [] s n h = cc
starts_hash-word (c ∷ w) s n h = rw (append.cons c w s) (ground (arith, h))

pub str_eq-word : (w s : String) → str_eq w "" ≡ false → str_eq (w ++ s) "" ≡ false
str_eq-word [] s n = cc
str_eq-word (c ∷ w) s n = rw (append.cons c w s) (str_eq-cons c (w ++ s))
