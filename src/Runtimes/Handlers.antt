-- ===== src/Runtimes/Handlers.antt =====
-- internal/api/v1/runtimes.go: the handlers of runtimes. A provider is what it answers during the
-- request, with the ids that new rows get; a body is what the JSON decoder gives. The kinds of
-- providers begin with an ASCII character. The audit log and the progress of an installation are not
-- modelled.
use alresia_voltpanel.Prelude.{
  String, Bool, not, Option, none, some, List, [], ◌∷◌, map, concat, str_eq, if◌then◌else◌, Outcome,
  failed, done,
}
use alresia_voltpanel.Plugins.Registry.{Registry, runtime, runtimes}
use alresia_voltpanel.Runtimes.{
  Runtime, Version, WithVersions, DetectedVersion, Database, RuntimeError, replace_detected,
  list_runtimes, set_default_version,
}

-- `detected` is none where DetectInstalled fails, `acts` whether Install, Remove or SetDefault succeeds.
pub record Provider : Type 0 where
  pub kind : String
  pub new_id : String
  pub detected : Option (List (String × DetectedVersion))
  pub acts : Bool

pub record VersionView : Type 0 where
  pub id : String
  pub version : String
  pub install_path : String
  pub is_default : Bool
  pub status : String

pub record RuntimeView : Type 0 where
  pub id : String
  pub kind : String
  pub name : String
  pub versions : List VersionView

pub data Reply : Type 0 where
  listed : List RuntimeView → Reply
  shown : RuntimeView → Reply
  ok : Reply
  bad_request : Reply
  missing : Reply
  bad_gateway : Reply
  internal_error : Reply

pub data DetectError : Type 0 where
  not_detected : DetectError
  not_persisted : RuntimeError → DetectError

unfoldable to_version_view : Version → VersionView
to_version_view v = record {
  id = v.id;
  version = v.version;
  install_path = v.install_path;
  is_default = v.is_default;
  status = v.status;
}

unfoldable pub to_runtime_view : WithVersions → RuntimeView
unfolding to_version_view
to_runtime_view r = record {
  id = r.runtime.id;
  kind = r.runtime.kind;
  name = r.runtime.name;
  versions = map to_version_view r.versions;
}

unfoldable capitalized : (String → String) → String → String
capitalized upper String.[] = ""
capitalized upper (String.◌∷◌ c s) = concat (upper (String.◌∷◌ c "")) s

-- `upper` is strings.ToUpper
unfoldable pub runtime_display_name : (String → String) → String → String
unfolding capitalized
runtime_display_name upper kind =
    if str_eq kind "node"
    then "Node.js"
    else if str_eq kind "php"
    then "PHP"
    else capitalized upper kind

unfoldable with_id : Runtime → List WithVersions → WithVersions
with_id rt [] = record { runtime = rt; versions = [] }
with_id rt (r ∷ rs) = if str_eq r.runtime.id rt.id then r else with_id rt rs

unfoldable pub persisted :
    Database × Outcome RuntimeError Runtime → Database × Outcome DetectError WithVersions
unfolding with_id
persisted (db, failed e) = (db, failed (not_persisted e))
persisted (db, done rt) = elim (list_runtimes db) [
  | failed e ↦ (db, failed (not_persisted e))
  | done all ↦ (db, done (with_id rt all))
]

unfoldable pub detect_and_persist :
    (String → String) → Database → Provider → Database × Outcome DetectError WithVersions
unfolding persisted
detect_and_persist upper db p = elim p.detected [
  | none ↦ (db, failed not_detected)
  | some ds ↦ persisted (replace_detected db p.new_id p.kind (runtime_display_name upper p.kind) ds)
]

-- a provider that fails is skipped
unfoldable pub refresh_all : (String → String) → Database → List Provider → Database
unfolding detect_and_persist
refresh_all upper db [] = db
refresh_all upper db (p ∷ ps) = refresh_all upper (detect_and_persist upper db p).0 ps

unfoldable pub listed_reply : Database → Database × Reply
unfolding to_runtime_view
listed_reply db = elim (list_runtimes db) [
  | failed e ↦ (db, internal_error)
  | done all ↦ (db, listed (map to_runtime_view all))
]

unfoldable pub list_runtimes_handler :
    (String → String) → Database → Registry Provider → Database × Reply
unfolding refresh_all listed_reply
list_runtimes_handler upper db providers = listed_reply (refresh_all upper db (runtimes providers))

unfoldable pub detected_reply : Database × Outcome DetectError WithVersions → Database × Reply
detected_reply (db, failed e) = (db, internal_error)
detected_reply (db, done r) = (db, shown (to_runtime_view r))

unfoldable pub redetected : (String → String) → Database → Provider → Database × Reply
unfolding detected_reply
redetected upper db p = detected_reply (detect_and_persist upper db p)

unfoldable pub detect_runtime_kind :
    (String → String) → Database → Registry Provider → String → Database × Reply
unfolding redetected
detect_runtime_kind upper db providers kind = elim (runtime providers kind) [
  | none ↦ (db, missing)
  | some p ↦ redetected upper db p
]

unfoldable of_kind : String → List WithVersions → Reply
of_kind kind [] = ok
of_kind kind (r ∷ rs) =
    if str_eq r.runtime.kind kind then shown (to_runtime_view r) else of_kind kind rs

unfoldable pub kind_reply : Database → String → Database × Reply
unfolding of_kind
kind_reply db kind = elim (list_runtimes db) [
  | failed e ↦ (db, internal_error)
  | done all ↦ (db, of_kind kind all)
]

unfoldable pub recorded_default : String → Database × Option RuntimeError → Database × Reply
unfolding kind_reply
recorded_default kind (db, some e) = (db, bad_request)
recorded_default kind (db, none) = kind_reply db kind

unfoldable pub set_default_runtime_version :
    Database → Registry Provider → String → String → Database × Reply
unfolding recorded_default
set_default_runtime_version db providers kind version = elim (runtime providers kind) [
  | none ↦ (db, missing)
  | some p ↦
      if p.acts
      then recorded_default kind (set_default_version db kind version)
      else (db, bad_request)
]

unfoldable pub install_runtime_version :
    (String → String) → Database → Registry Provider → String → String → Database × Reply
unfolding redetected
install_runtime_version upper db providers kind version =
    let answer : Database × Reply = elim (runtime providers kind) [
      | none ↦ (db, missing)
      | some p ↦ if p.acts then redetected upper db p else (db, bad_gateway)
    ] in
    if str_eq version "" then (db, bad_request) else answer

unfoldable pub remove_runtime_version :
    (String → String) → Database → Registry Provider → String → Bool → Database × Reply
unfolding redetected
remove_runtime_version upper db providers kind confirmed =
    let answer : Database × Reply = elim (runtime providers kind) [
      | none ↦ (db, missing)
      | some p ↦ if p.acts then redetected upper db p else (db, bad_request)
    ] in
    if not confirmed then (db, bad_request) else answer
