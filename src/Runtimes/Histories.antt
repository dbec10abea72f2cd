-- ===== src/Runtimes/Histories.antt =====
-- Every history of the operations of internal/domain/runtime/runtime.go, and the invariant of its
-- rows after it.
use alresia_voltpanel.Prelude.{
  ◌≡◌, refl, String, Bool, true, not, Option, none, some, List, [], ◌∷◌, map, arith, ◌==◌, on_if,
  on_option, tally, Outcome, failed, done,
}
use alresia_voltpanel.Prelude.Table.{find_by, has_key, unique, unique}
use alresia_voltpanel.Runtimes.{
  Runtime, DetectedVersion, Database, RuntimeError, runtime_kind, runtime_key, is_pair,
  mark_missing, place_all, insert_runtime, ensure_runtime, get_runtime_by_kind, detect_into,
  replace_detected, clear_default, make_default, set_default_of, set_default_version,
}
use alresia_voltpanel.Runtimes.Sound.{Sound, mapped-Sound, missing-Sound, place_all-Sound}

unfoldable pub new_database : Database
new_database = record { runtimes = []; versions = []; is_up = true }

pub data Operation : Type 0 where
  detects : String → String → String → List (String × DetectedVersion) → Operation
  picks : String → String → Operation
  -- the file of the database goes away or comes back
  reaches : Bool → Operation

unfoldable pub perform : Database → Operation → Database
perform db (detects id kind name ds) = (replace_detected db id kind name ds).0
perform db (picks kind version) = (set_default_version db kind version).0
perform db (reaches up) = record db { is_up = up }

unfoldable pub perform_all : Database → List Operation → Database
unfolding perform
perform_all db [] = db
perform_all db (o ∷ os) = perform_all (perform db o) os

pub new_database-Sound : Sound new_database.versions
unfolding new_database unique
new_database-Sound = record { pairs = λ i v. omega arith; ids = refl }

abbrev StaysSound : {A : Type 0} → Database × A → Type 0
StaysSound o = Sound o.0.versions

pub on_found :
    {B : Type 0} (P : B → Type 0) (o : Outcome RuntimeError (Option Runtime)) (x : RuntimeError → B)
    (y : B) (z : Runtime → B)
    → ((e : RuntimeError) → o ≡ failed e → P (x e))
    → (o ≡ done none → P y)
    → ((rt : Runtime) → o ≡ done (some rt) → P (z rt))
    → P (elim o [ failed e ↦ x e | done found ↦ elim found [ none ↦ y | some rt ↦ z rt ] ])
on_found P (failed e) x y z p q r = p e refl
on_found P (done none) x y z p q r = q refl
on_found P (done (some rt)) x y z p q r = r rt refl

pub found_runtime :
    (db : Database) (kind : String) (o : Option Runtime)
    → get_runtime_by_kind db kind ≡ done o
    → find_by runtime_kind kind db.runtimes ≡ o
unfolding get_runtime_by_kind
found_runtime db kind o h = ground arith

module _ (db : Database) (s : Sound db.versions) where
  insert_runtime-Sound : (rt : Runtime) → StaysSound (insert_runtime db rt)
  unfolding insert_runtime
  insert_runtime-Sound rt =
      on_if StaysSound (not db.is_up) _ _ (λ _. s)
        λ _. on_if StaysSound (has_key runtime_key rt.id db.runtimes) _ _ (λ _. s) (λ _. s)

  pub ensure_runtime-Sound : (id kind name : String) → StaysSound (ensure_runtime db id kind name)
  unfolding ensure_runtime
  ensure_runtime-Sound id kind name =
      on_found StaysSound (get_runtime_by_kind db kind) _ _ _ (λ e _. s)
        (λ _. insert_runtime-Sound (record { id = id; kind = kind; name = name })) λ rt _. s

  detect_into-Sound :
      (rt : Runtime) (ds : List (String × DetectedVersion)) → StaysSound (detect_into db rt ds)
  unfolding detect_into
  detect_into-Sound rt ds =
      let marked = map (mark_missing rt.id) db.versions in
      on_option StaysSound (place_all rt.id ds marked) _ _ (λ _. s)
        λ rows e. place_all-Sound rt.id ds marked (missing-Sound rt.id db.versions s) rows e

  set_default_of-Sound :
      (rt : Runtime) (version : String) → StaysSound (set_default_of db rt version)
  unfolding set_default_of make_default clear_default
  set_default_of-Sound rt version =
      on_if StaysSound (tally (is_pair rt.id version) db.versions == 0) _ _ (λ _. s)
        λ _.
          mapped-Sound (make_default rt.id version) (map (clear_default rt.id) db.versions)
            (mapped-Sound (clear_default rt.id) db.versions s (λ i v r. ground arith)
              (λ r. ground arith))
            (λ i v r. ground arith) (λ r. ground arith)

  set_default_version-Sound :
      (kind version : String) → StaysSound (set_default_version db kind version)
  unfolding set_default_version
  set_default_version-Sound kind version =
      on_found StaysSound (get_runtime_by_kind db kind) _ _ _ (λ e _. s) (λ _. s)
        λ rt _. set_default_of-Sound rt version

replaced-Sound :
    (ds : List (String × DetectedVersion)) (ensured : Database × Outcome RuntimeError Runtime)
    → StaysSound ensured
    → StaysSound {A = Outcome RuntimeError Runtime} (elim ensured.1 [
      | failed e ↦ (ensured.0, failed e)
      | done rt ↦ detect_into ensured.0 rt ds
    ])
replaced-Sound ds (db, failed e) s = s
replaced-Sound ds (db, done rt) s = detect_into-Sound db s rt ds

pub perform-Sound :
    (db : Database) (o : Operation) → Sound db.versions → Sound (perform db o).versions
unfolding perform replace_detected
perform-Sound db (detects id kind name ds) s =
    replaced-Sound ds (ensure_runtime db id kind name) (ensure_runtime-Sound db s id kind name)
perform-Sound db (picks kind version) s = set_default_version-Sound db s kind version
perform-Sound db (reaches up) s = s

pub perform_all-Sound :
    (db : Database) (os : List Operation) → Sound db.versions → Sound (perform_all db os).versions
unfolding perform_all
perform_all-Sound db [] s = s
perform_all-Sound db (o ∷ os) s = perform_all-Sound (perform db o) os (perform-Sound db o s)
