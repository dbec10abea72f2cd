-- ===== src/Detect/Registry.antt =====
-- The order of the registry in internal/domain/project/detect/detect.go.
use alresia_voltpanel.Prelude.{
  ◌≡◌, ◌⊎◌, refl, String, Option, none, some, List, [], ◌∷◌, inl, inr, Outcome, failed, done,
}
use alresia_voltpanel.Detect.{Result, Directory, Detector, register, detect_with}

-- No detector of the list matches or fails.
abbrev pub AllPass : List Detector → Directory → Type 0
AllPass [] dir = Unit {0}
AllPass (d ∷ ds) dir = (d dir ≡ done none) × AllPass ds dir

-- the answers of one detector
Answer-cases :
    (o : Outcome String (Option Result))
    → ((e : String) × (o ≡ failed e)) ⊎ (o ≡ done none) ⊎ ((r : Result) × (o ≡ done (some r)))
Answer-cases (failed e) = inl (e, refl)
Answer-cases (done none) = inr (inl refl)
Answer-cases (done (some r)) = inr (inr (r, refl))

-- `Register` adds a detector without a change of what the registry already decides: where no
-- detector of it matches or fails, the answer is the new one's, and where some detector does, it
-- is as before.
pub register-detect_with :
    (ds : List Detector) (d : Detector) (dir : Directory)
    → (AllPass ds dir × (detect_with (register ds d) dir ≡ detect_with (d ∷ []) dir))
      ⊎ ((¬ AllPass ds dir) × (detect_with (register ds d) dir ≡ detect_with ds dir))
unfolding detect_with register
register-detect_with [] d dir = inl (tt, refl)
register-detect_with (c ∷ cs) d dir = elim (Answer-cases (c dir)) [
  | inl (e, f) ↦ inr (λ p. let g = p.0 in cc, rw (f, detect_with) refl)
  | inr (inl f) ↦ elim (register-detect_with cs d dir) [
    | inl (pass, same) ↦ inl ((f, pass), rw (f, detect_with) same)
    | inr (decides, same) ↦ inr (λ p. decides p.1, rw (f, detect_with) same)
  ]
  | inr (inr (r, f)) ↦ inr (λ p. let g = p.0 in cc, rw (f, detect_with) refl)
]
