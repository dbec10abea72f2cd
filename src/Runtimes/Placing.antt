-- ===== src/Runtimes/Placing.antt =====
-- The loop of ReplaceDetected in internal/domain/runtime/runtime.go.
use alresia_voltpanel.Prelude.{
  ◌≡◌, refl, sym, subst, String, Bool, true, false, not, ◌&&◌, ◌||◌, none, some, List, [], ◌∷◌,
  ◌++◌, map, str_eq, eq_iff, arith, Bool-cases, inl, inr, if◌then◌else◌, on_if, tally, tally-append,
  keep, str_eq_refl,
}
use alresia_voltpanel.Prelude.Table.{change}
use alresia_voltpanel.Runtimes.{
  VersionRow, DetectedVersion, version_key, is_of, is_pair, find_version, detected_row, redetect,
}
use alresia_voltpanel.Runtimes.Lookups.{found_count, change-one}
use alresia_voltpanel.Runtimes.Sound.{Sound, is_elsewhere, find_version-none, tally-map, keep-map}

-- A row of the runtime whose status is not the one that its version should have.
abbrev pub is_wrong : String → (String → Bool) → VersionRow → Bool
is_wrong runtime_id seen r =
    is_of runtime_id r && not (str_eq r.status (if seen r.version then "installed" else "missing"))

-- What placing the versions of `seen` makes of the rows.
pub record Placed (runtime_id : String) (seen : String → Bool) (rows rows' : List VersionRow)
    : Type 0 where
  pub counts :
      (v : String)
      → tally (is_pair runtime_id v) rows'
        ≡ (if seen v then 1 else tally (is_pair runtime_id v) rows)
  pub elsewhere : keep (is_elsewhere runtime_id) rows' ≡ keep (is_elsewhere runtime_id) rows
  pub statuses :
      (before : String → Bool)
      → tally (is_wrong runtime_id before) rows ≡ 0
      → tally (is_wrong runtime_id (λ v. seen v || before v)) rows' ≡ 0

-- No element passes a test that implies one which none passed.
module _ {A : Type 0} (p q : A → Bool) (f : A → A)
    (le : (a : A) → q (f a) ≡ true → p a ≡ true) where
  tally-none : (rows : List A) → tally p rows ≡ 0 → tally q (map f rows) ≡ 0
  tally-none [] h = refl
  tally-none (a ∷ rows) h = ground (arith, tally-none rows, le a)

tally_end :
    {A : Type 0} (p : A → Bool) (a : A) (rows : List A)
    → tally p rows ≡ 0
    → p a ≡ false
    → tally p (rows ++ a ∷ []) ≡ 0
tally_end p a rows h e = ground (arith, tally-append p rows (a ∷ []))

module _ (runtime_id : String) where
  installed :
      (d : DetectedVersion) (before : String → Bool) (r : VersionRow)
      → r.version ≡ d.version
      → r.status ≡ "installed"
      → is_wrong runtime_id (λ w. str_eq d.version w || before w) r ≡ false
  installed d before r v t = ground (arith, eq_iff d.version r.version, eq_iff r.status "installed")

  keep_end :
      (rows : List VersionRow) (r : VersionRow)
      → is_elsewhere runtime_id r ≡ false
      → keep (is_elsewhere runtime_id) (rows ++ r ∷ []) ≡ keep (is_elsewhere runtime_id) rows
  keep_end [] r h = rw h refl
  keep_end (q ∷ rows) r h = elim (Bool-cases (is_elsewhere runtime_id q)) [
    | inl e ↦ rw (e, keep_end rows r h) refl
    | inr e ↦ rw (e, keep_end rows r h) refl
  ]

  -- a version that no row has
  not_wrong :
      (v : String) (before : String → Bool) (rows : List VersionRow)
      → tally (is_pair runtime_id v) rows ≡ 0
      → tally (is_wrong runtime_id before) rows ≡ 0
      → tally (is_wrong runtime_id (λ w. str_eq v w || before w)) rows ≡ 0
  not_wrong v before [] n h = refl
  not_wrong v before (r ∷ rows) n h =
      ground (arith, not_wrong v before rows, eq_iff v r.version, eq_iff r.version v)

  pub appended-Placed :
      (id : String) (d : DetectedVersion) (rows : List VersionRow)
      → find_version runtime_id d.version rows ≡ none
      → Placed runtime_id (str_eq d.version) rows (rows ++ detected_row runtime_id id d ∷ [])
  unfolding detected_row
  appended-Placed id d rows h =
      let new = detected_row runtime_id id d in
      let absent = find_version-none runtime_id d.version rows h in
      record {
        counts = λ v. ground (
          arith,
          tally-append (is_pair runtime_id v) rows (new ∷ []),
          absent,
          eq_iff d.version v,
          str_eq_refl runtime_id,
        );
        elsewhere = keep_end rows new (ground (arith, str_eq_refl runtime_id));
        statuses = λ before k.
            tally_end (is_wrong runtime_id (λ w. str_eq d.version w || before w)) new rows
              (not_wrong d.version before rows absent k) (installed d before new refl refl);
      }

  wrong_before :
      (d : DetectedVersion) (before : String → Bool) (q : VersionRow)
      → is_wrong runtime_id
          (λ w. str_eq d.version w || before w)
          (if is_pair runtime_id d.version q then redetect d q else q)
        ≡ true
      → is_wrong runtime_id before q ≡ true
  unfolding redetect
  wrong_before d before q =
      on_if
        (λ x.
          is_wrong runtime_id (λ w. str_eq d.version w || before w) x ≡ true
          → is_wrong runtime_id before q ≡ true)
        (is_pair runtime_id d.version q) _ _
        (λ e w.
          let v : q.version ≡ d.version = (eq_iff q.version d.version).0 (ground (arith, e)) in
          ground (arith, w, installed d before (redetect d q) v refl))
        λ e w. elim (Bool-cases (str_eq d.version q.version)) [
          | inl k ↦ ground (arith, w, e, eq_iff d.version q.version, eq_iff q.version d.version)
          | inr k ↦
              subst
                (λ b.
                  (is_of runtime_id q
                    && not (
                        str_eq q.status (if b || before q.version then "installed" else "missing")))
                  ≡ true)
                k w
        ]

  pub redetected-Placed :
      (d : DetectedVersion) (r : VersionRow) (rows : List VersionRow)
      → Sound rows
      → find_version runtime_id d.version rows ≡ some r
      → Placed runtime_id (str_eq d.version) rows (change version_key r.id (redetect d) rows)
  unfolding redetect
  redetected-Placed d r rows s h =
      let f : VersionRow → VersionRow =
        λ q. if is_pair runtime_id d.version q then redetect d q else q in
      subst (Placed runtime_id (str_eq d.version) rows)
        (sym (
          change-one runtime_id d.version r (redetect d) rows (s.pairs runtime_id d.version) s.ids
            h))
        record {
          counts = λ v. ground (
            arith,
            tally-map (is_pair runtime_id v) (is_pair runtime_id v) f rows (λ q. ground arith),
            s.pairs runtime_id d.version,
            found_count runtime_id d.version r rows h,
            eq_iff d.version v,
          );
          elsewhere =
              keep-map (is_elsewhere runtime_id) f rows (λ q. ground arith) (λ q e. ground arith);
          statuses = λ before.
              tally-none (is_wrong runtime_id before)
                (is_wrong runtime_id (λ w. str_eq d.version w || before w)) f
                (wrong_before d before) rows;
        }
