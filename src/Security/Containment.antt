-- ===== src/Security/Containment.antt =====
-- Where a path that the sandbox resolves lies.
use alresia_voltpanel.Prelude.{
  String, true, false, List, [], ◌∷◌, ◌++◌, ◌≡◌, refl, sym, ap, ◌∙◌, subst, inl, inr, ◌⊎◌, str_eq,
  eq_iff, Outcome, failed, done, Bool-cases, Outcome-cases,
}
use alresia_voltpanel.Prelude.Paths.{FilePath, join}
use alresia_voltpanel.Security.Sandbox.{
  Evaluated, real, not_exist, broken, SandboxError, Sandbox, climbs, rel, stays, is_within,
  absolute, onto, climb, resolve_existing_ancestor, joined_path, resolve, escapes,
}

-- within the root: the root's parts come first
pub record Within (root target : FilePath) : Type 0 where
  pub rest : List String
  pub below : target.parts ≡ root.parts ++ rest

append_middle :
    (xs : List String) (y : String) (ys : List String) → xs ++ y ∷ ys ≡ (xs ++ y ∷ []) ++ ys
append_middle [] y ys = refl
append_middle (x ∷ xs) y ys = ap (λ zs. x ∷ zs) (append_middle xs y ys)

climbs_out : (b : String) (base target : List String) → stays (climbs (b ∷ base) target) ≡ false
unfolding climbs stays
climbs_out b base target = refl

stays_below :
    (base target : List String)
    → stays (rel base target) ≡ true
    → (rest : List String) × (target ≡ base ++ rest)
unfolding rel
stays_below [] target h = (target, refl)
stays_below (b ∷ base) [] h = let e : false ≡ true = sym (climbs_out b base []) ∙ h in cc
stays_below (b ∷ base) (t ∷ target) h = elim (Bool-cases (str_eq b t)) [
  | inl same ↦
      let g : stays (rel base target) ≡ true = rw same at h in
      let (rest, e) = stays_below base target g in (rest, rw (e, (eq_iff b t).0 same) refl)
  | inr apart ↦
      let g : stays (climbs (b ∷ base) (t ∷ target)) ≡ true = rw apart at h in
      let e : false ≡ true = sym (climbs_out b base (t ∷ target)) ∙ g in cc
]

pub is_within-Within : (root target : FilePath) → is_within root target ≡ true → Within root target
unfolding is_within
is_within-Within root target h =
    let (rest, e) = stays_below root.parts target.parts h in record { rest = rest; below = e }

onto-append : (above ps : List String) → onto above ps ≡ onto above [] ++ ps
unfolding onto
onto-append [] ps = refl
onto-append (part ∷ above) ps =
    onto-append above (part ∷ ps)
    ∙ append_middle (onto above []) part ps
    ∙ sym (ap (λ xs. xs ++ ps) (onto-append above (part ∷ [])))

-- Everything of a path that follows `found` does not exist.
pub Missing : (FilePath → Evaluated) → List String → List String → Type 0
Missing eval found missing =
    (part : String) (more rest : List String)
    → missing ≡ part ∷ (more ++ rest)
    → eval (absolute (found ++ part ∷ more)) ≡ not_exist

-- The deepest part of a path that exists is `found`, at `resolved`; or no part exists.
pub data Located (eval : FilePath → Evaluated) (path target : FilePath) : Type 0 where
  nothing_exists :
      Missing eval [] path.parts
      → eval (absolute []) ≡ not_exist
      → target ≡ path
      → Located eval path target
  exists :
      (found missing : List String) (resolved : FilePath)
      → path.parts ≡ found ++ missing
      → Missing eval found missing
      → eval (absolute found) ≡ real resolved
      → target ≡ join resolved missing
      → Located eval path target

abbrev Placed : (FilePath → Evaluated) → FilePath → Outcome SandboxError FilePath → Type 0
Placed eval path (failed e) = true ≡ true
Placed eval path (done target) = Located eval path target

Evaluated-cases :
    (e : Evaluated)
    → ((r : FilePath) × (e ≡ real r)) ⊎ ((e ≡ not_exist) ⊎ ((m : String) × (e ≡ broken m)))
Evaluated-cases (real r) = inl (r, refl)
Evaluated-cases not_exist = inr (inl refl)
Evaluated-cases (broken m) = inr (inr (m, refl))

head_of : String → List String → String
head_of d [] = d
head_of d (x ∷ xs) = x

tail_of : List String → List String
tail_of [] = []
tail_of (x ∷ xs) = xs

Missing-step :
    (eval : FilePath → Evaluated) (above : List String) (part : String) (suffix : List String)
    → eval (absolute (onto (part ∷ above) [])) ≡ not_exist
    → Missing eval (onto (part ∷ above) []) suffix
    → Missing eval (onto above []) (part ∷ suffix)
unfolding Missing onto head_of tail_of
Missing-step eval above part suffix gone tried x [] rest e =
    let h : part ≡ x = ap (head_of part) e in
    ap (λ xs. eval (absolute xs))
      (ap (λ y. onto above [] ++ y ∷ []) (sym h) ∙ sym (onto-append above (part ∷ [])))
    ∙ gone
Missing-step eval above part suffix gone tried x (y ∷ more) rest e =
    let h : part ≡ x = ap (head_of part) e in
    let t : suffix ≡ y ∷ (more ++ rest) = ap tail_of e in
    let same : onto above [] ++ x ∷ y ∷ more ≡ onto above (part ∷ []) ++ y ∷ more =
      ap (λ z. onto above [] ++ z ∷ y ∷ more) (sym h)
      ∙ append_middle (onto above []) part (y ∷ more)
      ∙ ap (λ xs. xs ++ y ∷ more) (sym (onto-append above (part ∷ []))) in
    ap (λ xs. eval (absolute xs)) same ∙ tried y more rest t

climb-Placed :
    (eval : FilePath → Evaluated) (path : FilePath) (above suffix : List String)
    → path.parts ≡ onto above [] ++ suffix
    → Missing eval (onto above []) suffix
    → Placed eval path (climb eval path above suffix)
unfolding climb onto
climb-Placed eval path [] suffix whole tried = elim (Evaluated-cases (eval (absolute []))) [
  | inl (r, e) ↦ rw (climb, e) (exists [] suffix r whole tried e refl)
  | inr (inl e) ↦ rw (climb, e) (nothing_exists (subst (Missing eval []) (sym whole) tried) e refl)
  | inr (inr (m, e)) ↦ rw (climb, e) refl
]
climb-Placed eval path (part ∷ above) suffix whole tried =
    elim (Evaluated-cases (eval (absolute (onto (part ∷ above) [])))) [
      | inl (r, e) ↦ rw (climb, e) (exists (onto (part ∷ above) []) suffix r whole tried e refl)
      | inr (inl e) ↦
          rw (climb, e)
            (climb-Placed eval path above (part ∷ suffix)
              (whole
                ∙ ap (λ xs. xs ++ suffix) (onto-append above (part ∷ []))
                ∙ sym (append_middle (onto above []) part suffix))
              (Missing-step eval above part suffix e tried))
      | inr (inr (m, e)) ↦ rw (climb, e) refl
    ]

reversed : (ps qs : List String) → onto (onto ps qs) [] ≡ onto qs ps
unfolding onto
reversed [] qs = refl
reversed (p ∷ ps) qs = reversed ps (p ∷ qs)

resolve_existing_ancestor-Placed :
    (eval : FilePath → Evaluated) (path : FilePath)
    → Placed eval path (resolve_existing_ancestor eval path)
unfolding resolve_existing_ancestor Missing onto
resolve_existing_ancestor-Placed eval path =
    climb-Placed eval path (onto path.parts []) []
      (sym (reversed path.parts []) ∙ onto-append (onto path.parts []) []) (λ part more rest e. cc)

done_path : FilePath → Outcome SandboxError FilePath → FilePath
done_path d (failed e) = d
done_path d (done path) = path

-- A path that `Resolve` returns is the cleaned path of the request, and the place that it checks
-- has the parts of the root first: this is the real place of the deepest part of the path that
-- exists, with the parts that do not exist after it.
pub resolve-Located :
    (eval : FilePath → Evaluated) (s : Sandbox) (user path : FilePath)
    → resolve eval s user ≡ done path
    → (path ≡ joined_path s user)
      × ((target : FilePath) × Located eval path target × Within s.root target)
unfolding resolve done_path
resolve-Located eval s user path h =
    let joined : FilePath = joined_path s user in
    elim (Outcome-cases (resolve_existing_ancestor eval joined)) [
      | inl (e, f) ↦ let bad : failed e ≡ done path = rw (resolve, f) at h in cc
      | inr (target, f) ↦ elim (Bool-cases (is_within s.root target)) [
        | inr b ↦ let bad : failed escapes ≡ done path = rw (resolve, f, b) at h in cc
        | inl b ↦
            let k : done joined ≡ done path = rw (resolve, f, b) at h in
            let same : joined ≡ path = ap (done_path path) k in
            let at_joined : Located eval joined target =
              subst (Placed eval joined) f (resolve_existing_ancestor-Placed eval joined) in
            let placed : (target : FilePath) × Located eval path target × Within s.root target = (
              target,
              subst (λ p. Located eval p target) same at_joined,
              is_within-Within s.root target b,
            ) in
            (sym same, placed)
      ]
    ]
