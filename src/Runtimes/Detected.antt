-- ===== src/Runtimes/Detected.antt =====
-- What ReplaceDetected in internal/domain/runtime/runtime.go makes of the table of versions.
use alresia_voltpanel.Prelude.{
  ◌≡◌, ◌∙◌, refl, String, false, not, ◌||◌, Option, none, some, List, [], ◌∷◌, map, eq_iff, arith,
  Bool-cases, inl, inr, if◌then◌else◌, on_if, tally, keep, elem, Outcome, failed, done,
}
use alresia_voltpanel.Prelude.Table.{find_by, has_key, find_by-append, find_by-has_key}
use alresia_voltpanel.Runtimes.{
  Runtime, VersionRow, DetectedVersion, Database, RuntimeError, database_error, runtime_kind,
  runtime_key, is_of, is_pair, mark_missing, place_all, detect_into, insert_runtime, ensure_runtime,
  get_runtime_by_kind, replace_detected,
}
use alresia_voltpanel.Runtimes.Sound.{Sound, is_elsewhere, tally-map, keep-map, missing-Sound}
use alresia_voltpanel.Runtimes.Loop.{names, PlacedOption, wrong_cong, place_all-Placed}
use alresia_voltpanel.Runtimes.Placing.{is_wrong}
use alresia_voltpanel.Runtimes.Histories.{
  Operation, new_database, new_database-Sound, perform_all, perform_all-Sound, on_found,
  found_runtime, ensure_runtime-Sound,
}

-- What ReplaceDetected leaves and answers: of the runtime, the detected versions are there once each
-- as installed and all others stay as missing; the rows of other runtimes are as they were.
pub record Detected (db : Database) (rt : Runtime) (kind : String) (seen : List String)
    (db' : Database) : Type 0 where
  pub found : find_by runtime_kind kind db'.runtimes ≡ some rt
  pub counts :
      (v : String)
      → tally (is_pair rt.id v) db'.versions
        ≡ (if elem v seen then 1 else tally (is_pair rt.id v) db.versions)
  pub statuses : tally (is_wrong rt.id (λ v. elem v seen)) db'.versions ≡ 0
  pub elsewhere : keep (is_elsewhere rt.id) db'.versions ≡ keep (is_elsewhere rt.id) db.versions

abbrev pub Replaced :
    Database → String → List String → Database × Outcome RuntimeError Runtime → Type 0
Replaced db kind seen (db', failed e) = db'.versions ≡ db.versions
Replaced db kind seen (db', done rt) = Detected db rt kind seen db'

-- What EnsureRuntime leaves and answers.
abbrev Ensured : Database → String → Database × Outcome RuntimeError Runtime → Type 0
Ensured db kind (db', failed e) = db'.versions ≡ db.versions
Ensured db kind (db', done rt) =
    (find_by runtime_kind kind db'.runtimes ≡ some rt) × (db'.versions ≡ db.versions)

missing_right :
    (runtime_id : String) (r : VersionRow)
    → is_wrong runtime_id (λ _. false) (mark_missing runtime_id r) ≡ false
unfolding mark_missing
missing_right runtime_id r =
    on_if (λ x. is_wrong runtime_id (λ _. false) x ≡ false) (is_of runtime_id r) _ _
      (λ e. ground (arith, e, eq_iff "missing" "missing")) (λ e. ground (arith, e))

all_missing :
    (runtime_id : String) (rows : List VersionRow)
    → tally (is_wrong runtime_id (λ _. false)) (map (mark_missing runtime_id) rows) ≡ 0
all_missing runtime_id [] = refl
all_missing runtime_id (r ∷ rows) =
    ground (arith, all_missing runtime_id rows, missing_right runtime_id r)

module _ (db : Database) (kind : String) where
  inserted-Ensured :
      (rt : Runtime)
      → rt.kind ≡ kind
      → find_by runtime_kind kind db.runtimes ≡ none
      → Ensured db kind (insert_runtime db rt)
  unfolding insert_runtime
  inserted-Ensured rt k absent =
      on_if (Ensured db kind) (not db.is_up) _ _ (λ _. refl)
        λ _.
          on_if (Ensured db kind) (has_key runtime_key rt.id db.runtimes) _ _ (λ _. refl)
            λ _. (
              find_by-append runtime_kind kind db.runtimes rt
                  ∙ (elim (Bool-cases (has_key runtime_kind kind db.runtimes)) [
                    | inl e ↦
                        let (a, f) = find_by-has_key runtime_kind kind db.runtimes e in
                        cc (f, absent)
                    | inr e ↦ rw (e, (eq_iff rt.kind kind).1 k) refl
                  ]),
              refl,
            )

  ensure_runtime-Ensured : (id name : String) → Ensured db kind (ensure_runtime db id kind name)
  unfolding ensure_runtime
  ensure_runtime-Ensured id name =
      on_found (Ensured db kind) (get_runtime_by_kind db kind) _ _ _ (λ e _. refl)
        (λ h.
          inserted-Ensured (record { id = id; kind = kind; name = name }) refl
            (found_runtime db kind none h))
        λ rt h. (found_runtime db kind (some rt) h, refl)

  Placed-Replaced :
      (db' : Database) (rt : Runtime) (ds : List (String × DetectedVersion))
      (o : Option (List VersionRow))
      → Ensured db kind (db', done rt)
      → PlacedOption rt.id (λ v. elem v (names ds)) (map (mark_missing rt.id) db'.versions) o
      → Replaced db kind (names ds) (elim o [
        | none ↦ (db', failed database_error)
        | some rows ↦ (record db' { versions = rows }, done rt)
      ])
  unfolding mark_missing
  Placed-Replaced db' rt ds none (f, e) p = e
  Placed-Replaced db' rt ds (some rows) (f, e) p = record {
    found = f;
    counts = λ v.
        rw
          (
            p.counts v,
            tally-map (is_pair rt.id v) (is_pair rt.id v) (mark_missing rt.id) db'.versions
                (λ r. ground arith),
            e,
          )
          refl;
    statuses =
        wrong_cong rt.id (λ v. elem v (names ds)) (λ v. elem v (names ds) || false) rows
          (λ v. ground arith)
        ∙ p.statuses (λ _. false) (all_missing rt.id db'.versions);
    elsewhere =
        p.elsewhere
        ∙ keep-map (is_elsewhere rt.id) (mark_missing rt.id) db'.versions (λ r. ground arith)
            (λ r h. ground arith)
        ∙ rw e refl;
  }

  Ensured-Replaced :
      (ds : List (String × DetectedVersion)) (ensured : Database × Outcome RuntimeError Runtime)
      → Sound ensured.0.versions
      → Ensured db kind ensured
      → Replaced db kind (names ds) (elim ensured.1 [
        | failed e ↦ (ensured.0, failed e)
        | done rt ↦ detect_into ensured.0 rt ds
      ])
  unfolding detect_into
  Ensured-Replaced ds (db', failed x) s e = e
  Ensured-Replaced ds (db', done rt) s e =
      let marked = map (mark_missing rt.id) db'.versions in
      Placed-Replaced db' rt ds (place_all rt.id ds marked) e
        (place_all-Placed rt.id ds marked (missing-Sound rt.id db'.versions s))

pub replace_detected_lem :
    (db : Database) (id kind name : String) (ds : List (String × DetectedVersion))
    → Sound db.versions
    → Replaced db kind (names ds) (replace_detected db id kind name ds)
unfolding replace_detected
replace_detected_lem db id kind name ds s =
    Ensured-Replaced db kind ds (ensure_runtime db id kind name)
      (ensure_runtime-Sound db s id kind name) (ensure_runtime-Ensured db kind id name)

-- After any sequence of ReplaceDetected, SetDefaultVersion and failures of the database,
-- `ReplaceDetected` either fails and leaves the table of versions as it was; or answers the
-- runtime of that kind, of which each detected version then has exactly one row and every other
-- version the rows it had, with the status installed where it was detected and missing where not;
-- the rows of other runtimes are as they were.
pub replace_detected-Replaced :
    (os : List Operation) (id kind name : String) (ds : List (String × DetectedVersion))
    → let db = perform_all new_database os in
      Replaced db kind (names ds) (replace_detected db id kind name ds)
replace_detected-Replaced os id kind name ds =
    replace_detected_lem (perform_all new_database os) id kind name ds
      (perform_all-Sound new_database os new_database-Sound)
