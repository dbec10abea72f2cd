-- ===== src/Runtimes/Defaults.antt =====
-- The default version of a runtime in internal/domain/runtime/runtime.go after SetDefaultVersion.
use alresia_voltpanel.Prelude.{
  ◌≡◌, refl, ◌∙◌, String, Bool, false, not, ◌&&◌, Option, none, some, List, map, str_eq, arith,
  ◌==◌, on_if, keep, tally, failed,
}
use alresia_voltpanel.Prelude.Table.{find_by}
use alresia_voltpanel.Runtimes.{
  Runtime, VersionRow, Database, RuntimeError, version_not_found, database_error, runtime_kind,
  is_of, is_pair, clear_default, make_default, get_runtime_by_kind, set_default_of,
  set_default_version,
}
use alresia_voltpanel.Runtimes.Sound.{Sound, is_elsewhere, tally-map, keep-map}
use alresia_voltpanel.Runtimes.Histories.{
  Operation, new_database, new_database-Sound, perform_all, perform_all-Sound, on_found,
  found_runtime,
}

-- a version of the runtime that is flagged as its default
abbrev pub is_default_of : String → VersionRow → Bool
is_default_of runtime_id r = is_of runtime_id r && not (r.is_default == 0)

-- whether the pair of a kind and a version is known
abbrev pub is_known : Database → String → String → Bool
is_known db kind version = elim (find_by runtime_kind kind db.runtimes) [
  | none ↦ false
  | some rt ↦ not (tally (is_pair rt.id version) db.versions == 0)
]

-- What SetDefaultVersion leaves and answers.
abbrev pub Picked : Database → String → String → Database × Option RuntimeError → Type 0
Picked db kind version (db', some database_error) = (db' ≡ db) × (db.is_up ≡ false)
Picked db kind version (db', some version_not_found) =
    (db' ≡ db) × (is_known db kind version ≡ false)
Picked db kind version (db', none) =
    (rt : Runtime) × (find_by runtime_kind kind db.runtimes ≡ some rt)
    × (tally (is_default_of rt.id) db'.versions ≡ 1)
    × (tally (λ r. is_default_of rt.id r && str_eq r.version version) db'.versions ≡ 1)
    × (keep (is_elsewhere rt.id) db'.versions ≡ keep (is_elsewhere rt.id) db.versions)

module _ (runtime_id version : String) where
  abbrev pick : List VersionRow → List VersionRow
  pick rows = map (make_default runtime_id version) (map (clear_default runtime_id) rows)

  tally-pick :
      (p : VersionRow → Bool) (rows : List VersionRow)
      → ((r : VersionRow)
          → p (make_default runtime_id version (clear_default runtime_id r))
            ≡ is_pair runtime_id version r)
      → tally p (pick rows) ≡ tally (is_pair runtime_id version) rows
  tally-pick p rows picked =
      tally-map p (λ r. p (make_default runtime_id version r)) (make_default runtime_id version)
        (map (clear_default runtime_id) rows) (λ r. refl)
      ∙ tally-map (λ r. p (make_default runtime_id version r)) (is_pair runtime_id version)
          (clear_default runtime_id) rows picked

  elsewhere-pick :
      (rows : List VersionRow)
      → keep (is_elsewhere runtime_id) (pick rows) ≡ keep (is_elsewhere runtime_id) rows
  unfolding make_default clear_default
  elsewhere-pick rows =
      keep-map (is_elsewhere runtime_id) (make_default runtime_id version)
        (map (clear_default runtime_id) rows) (λ r. ground arith) (λ r h. ground arith)
      ∙ keep-map (is_elsewhere runtime_id) (clear_default runtime_id) rows (λ r. ground arith)
          λ r h. ground arith

set_default_of-Picked :
    (db : Database) (kind version : String) (rt : Runtime)
    → Sound db.versions
    → find_by runtime_kind kind db.runtimes ≡ some rt
    → Picked db kind version (set_default_of db rt version)
unfolding set_default_of make_default clear_default
set_default_of-Picked db kind version rt s f =
    on_if (Picked db kind version) (tally (is_pair rt.id version) db.versions == 0) _ _
      (λ e. (refl, rw (is_known, f, e) refl))
      λ e.
        let one : tally (is_pair rt.id version) db.versions ≡ 1 =
          ground (arith, s.pairs rt.id version) in
        (
          rt,
          f,
          tally-pick rt.id version (is_default_of rt.id) db.versions (λ r. ground arith) ∙ one,
          tally-pick rt.id version (λ r. is_default_of rt.id r && str_eq r.version version)
                db.versions (λ r. ground arith)
              ∙ one,
          elsewhere-pick rt.id version db.versions,
        )

down-Picked :
    (db : Database) (kind version : String) (e : RuntimeError)
    → get_runtime_by_kind db kind ≡ failed e
    → Picked db kind version (db, some e)
unfolding get_runtime_by_kind
down-Picked db kind version version_not_found h = (refl, ground arith)
down-Picked db kind version database_error h = (refl, ground arith)

-- After any sequence of ReplaceDetected, SetDefaultVersion and failures of the database,
-- `SetDefaultVersion` either succeeds, and then exactly one row of the runtime of that kind is
-- flagged as the default, which has that version, and the rows of other runtimes are as they
-- were; or answers ErrVersionNotFound where the kind and version are not known, or an error where
-- the database is down, and leaves the tables as they were.
pub set_default_version-Picked :
    (os : List Operation) (kind version : String)
    → let db = perform_all new_database os in
      Picked db kind version (set_default_version db kind version)
unfolding set_default_version
set_default_version-Picked os kind version =
    let db = perform_all new_database os in
    on_found (Picked db kind version) (get_runtime_by_kind db kind) _ _ _
      (down-Picked db kind version) (λ h. (refl, rw (is_known, found_runtime db kind none h) refl))
      λ rt h.
        set_default_of-Picked db kind version rt
          (perform_all-Sound new_database os new_database-Sound) (found_runtime db kind (some rt) h)
