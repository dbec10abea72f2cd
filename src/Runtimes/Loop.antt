-- ===== src/Runtimes/Loop.antt =====
-- All rounds of the loop of ReplaceDetected in internal/domain/runtime/runtime.go.
use alresia_voltpanel.Prelude.{
  ◌≡◌, ◌∙◌, refl, subst, String, Bool, ◌||◌, Option, none, some, List, [], ◌∷◌, str_eq, arith,
  on_if, on_option, tally, elem,
}
use alresia_voltpanel.Prelude.Table.{has_key}
use alresia_voltpanel.Runtimes.{
  VersionRow, DetectedVersion, version_key, find_version, place, place_all,
}
use alresia_voltpanel.Runtimes.Sound.{Sound, place-Sound}
use alresia_voltpanel.Runtimes.Placing.{is_wrong, Placed, appended-Placed, redetected-Placed}

-- the versions that were detected
abbrev pub names : List (String × DetectedVersion) → List String
names [] = []
names ((id, d) ∷ ds) = d.version ∷ names ds

tally_cong :
    {A : Type 0} (p q : A → Bool) (rows : List A)
    → ((a : A) → p a ≡ q a)
    → tally p rows ≡ tally q rows
tally_cong p q [] same = refl
tally_cong p q (a ∷ rows) same = ground (arith, same a, tally_cong p q rows same)

module _ (runtime_id : String) where
  abbrev pub PlacedOption : (String → Bool) → List VersionRow → Option (List VersionRow) → Type 0
  PlacedOption seen rows none = rows ≡ rows
  PlacedOption seen rows (some rows') = Placed runtime_id seen rows rows'

  place-Placed :
      (id : String) (d : DetectedVersion) (rows : List VersionRow)
      → Sound rows
      → PlacedOption (str_eq d.version) rows (place runtime_id id d rows)
  unfolding place
  place-Placed id d rows s =
      on_option (PlacedOption (str_eq d.version) rows) (find_version runtime_id d.version rows) _ _
        (λ unknown.
          on_if (PlacedOption (str_eq d.version) rows) (has_key version_key id rows) _ _ (λ _. refl)
            λ _. appended-Placed runtime_id id d rows unknown)
        λ r known. redetected-Placed runtime_id d r rows s known

  pub wrong_cong :
      (seen before : String → Bool) (rows : List VersionRow)
      → ((v : String) → seen v ≡ before v)
      → tally (is_wrong runtime_id seen) rows ≡ tally (is_wrong runtime_id before) rows
  wrong_cong seen before rows same =
      tally_cong (is_wrong runtime_id seen) (is_wrong runtime_id before) rows
        λ r. rw (same r.version) refl

  then-Placed :
      (v : String) (vs : List String) (rows rows' rows'' : List VersionRow)
      → Placed runtime_id (str_eq v) rows rows'
      → Placed runtime_id (λ w. elem w vs) rows' rows''
      → Placed runtime_id (λ w. elem w (v ∷ vs)) rows rows''
  then-Placed v vs rows rows' rows'' p q = record {
    counts = λ w. ground (arith, p.counts w, q.counts w);
    elsewhere = q.elsewhere ∙ p.elsewhere;
    statuses = λ before k.
        wrong_cong (λ w. elem w (v ∷ vs) || before w) (λ w. elem w vs || (str_eq v w || before w))
          rows'' (λ w. ground arith)
        ∙ q.statuses (λ w. str_eq v w || before w) (p.statuses before k);
  }

  nothing-Placed : (rows : List VersionRow) → Placed runtime_id (λ w. elem w []) rows rows
  nothing-Placed rows = record { counts = λ w. refl; elsewhere = refl; statuses = λ before k. k }

  after :
      (id : String) (d : DetectedVersion) (ds : List (String × DetectedVersion))
      (rows placed : List VersionRow) (o : Option (List VersionRow))
      → Placed runtime_id (str_eq d.version) rows placed
      → PlacedOption (λ v. elem v (names ds)) placed o
      → PlacedOption (λ v. elem v (names ((id, d) ∷ ds))) rows o
  after id d ds rows placed none p q = refl
  after id d ds rows placed (some rows') p q =
      then-Placed d.version (names ds) rows placed rows' p q

  pub place_all-Placed :
      (ds : List (String × DetectedVersion)) (rows : List VersionRow)
      → Sound rows
      → PlacedOption (λ v. elem v (names ds)) rows (place_all runtime_id ds rows)
  unfolding place_all
  place_all-Placed [] rows s = nothing-Placed rows
  place_all-Placed ((id, d) ∷ ds) rows s =
      on_option (PlacedOption (λ v. elem v (names ((id, d) ∷ ds))) rows)
        (place runtime_id id d rows) _ _ (λ _. refl)
        λ placed e.
          after id d ds rows placed (place_all runtime_id ds placed)
            (subst (PlacedOption (str_eq d.version) rows) e (place-Placed id d rows s))
            (place_all-Placed ds placed (place-Sound runtime_id id d rows s placed e))
