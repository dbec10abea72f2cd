-- ===== src/Runtimes.antt =====
-- internal/domain/runtime/runtime.go, over the `runtimes` and `runtime_versions` tables of
-- internal/storage/migrations/0001_init.sql. New ids are arguments. A transaction that does not
-- reach its Commit leaves the table as it was. A version belongs to a runtime that was just read, so
-- that its REFERENCES constraint holds.
pub mod Sound
pub mod Lookups
pub mod Placing
pub mod Loop
pub mod Detected
pub mod Histories
pub mod Defaults
pub mod Handlers
pub mod Kept
pub mod Requests
use Prim.Native.Nat.{Ordering}
use Prim.Native.String.{compare}
use alresia_voltpanel.Prelude.{
  ℕ, String, Bool, true, false, not, ◌&&◌, Option, none, some, List, [], ◌∷◌, ◌++◌, map, str_eq,
  if◌then◌else◌, ◌==◌, keep, tally, Outcome, failed, done,
}
use alresia_voltpanel.Prelude.Table.{find_by, has_key, change}

pub record Runtime : Type 0 where
  pub id : String
  pub kind : String
  pub name : String

pub record Version : Type 0 where
  pub id : String
  pub runtime_id : String
  pub version : String
  pub install_path : String
  pub is_default : Bool
  pub status : String

-- The columns.
pub record VersionRow : Type 0 where
  pub id : String
  pub runtime_id : String
  pub version : String
  pub install_path : Option String
  pub is_default : ℕ
  pub status : String

pub record DetectedVersion : Type 0 where
  pub version : String
  pub install_path : String
  pub is_default : Bool

pub record WithVersions : Type 0 where
  pub runtime : Runtime
  pub versions : List Version

-- `is_up` is false while every statement fails.
pub record Database : Type 0 where
  pub runtimes : List Runtime
  pub versions : List VersionRow
  pub is_up : Bool

pub data RuntimeError : Type 0 where
  version_not_found : RuntimeError
  database_error : RuntimeError

abbrev pub runtime_key : Runtime → String
runtime_key rt = rt.id

abbrev pub runtime_kind : Runtime → String
runtime_kind rt = rt.kind

abbrev pub version_key : VersionRow → String
version_key r = r.id

unfoldable pub bool_to_int : Bool → ℕ
bool_to_int true = 1
bool_to_int false = 0

unfoldable pub get_runtime_by_kind : Database → String → Outcome RuntimeError (Option Runtime)
get_runtime_by_kind db kind =
    if db.is_up then done (find_by runtime_kind kind db.runtimes) else failed database_error

-- INSERT INTO runtimes
unfoldable pub insert_runtime : Database → Runtime → Database × Outcome RuntimeError Runtime
insert_runtime db rt =
    if not db.is_up
    then (db, failed database_error)
    else if has_key runtime_key rt.id db.runtimes
    then (db, failed database_error)
    else (record db { runtimes = db.runtimes ++ rt ∷ [] }, done rt)

unfoldable pub ensure_runtime :
    Database → String → String → String → Database × Outcome RuntimeError Runtime
ensure_runtime db id kind name =
    let rt : Runtime = record { id = id; kind = kind; name = name } in
    elim (get_runtime_by_kind db kind) [
      | failed e ↦ (db, failed e)
      | done found ↦ elim found [ none ↦ insert_runtime db rt | some old ↦ (db, done old) ]
    ]

-- WHERE runtime_id = ?
abbrev pub is_of : String → VersionRow → Bool
is_of runtime_id r = str_eq r.runtime_id runtime_id

-- WHERE runtime_id = ? AND version = ?
abbrev pub is_pair : String → String → VersionRow → Bool
is_pair runtime_id version r = is_of runtime_id r && str_eq r.version version

unfoldable pub find_version : String → String → List VersionRow → Option VersionRow
find_version runtime_id version [] = none
find_version runtime_id version (r ∷ rows) =
    if is_pair runtime_id version r then some r else find_version runtime_id version rows

unfoldable pub mark_missing : String → VersionRow → VersionRow
mark_missing runtime_id r = if is_of runtime_id r then record r { status = "missing" } else r

-- the row of a version that was not known
unfoldable pub detected_row : String → String → DetectedVersion → VersionRow
detected_row runtime_id id d = record {
  id = id;
  runtime_id = runtime_id;
  version = d.version;
  install_path = some d.install_path;
  is_default = bool_to_int d.is_default;
  status = "installed";
}

unfoldable pub redetect : DetectedVersion → VersionRow → VersionRow
redetect d r = record r {
  install_path = some d.install_path;
  is_default = bool_to_int d.is_default;
  status = "installed";
}

-- One round of the loop, with the id that a new row gets; `none` when a statement fails.
unfoldable pub place :
    String → String → DetectedVersion → List VersionRow → Option (List VersionRow)
place runtime_id id d rows = elim (find_version runtime_id d.version rows) [
  | none ↦
      if has_key version_key id rows then none else some (rows ++ detected_row runtime_id id d ∷ [])
  | some r ↦ some (change version_key r.id (redetect d) rows)
]

unfoldable pub place_all :
    String → List (String × DetectedVersion) → List VersionRow → Option (List VersionRow)
place_all runtime_id [] rows = some rows
place_all runtime_id ((id, d) ∷ ds) rows = elim (place runtime_id id d rows) [
  | none ↦ none
  | some rows' ↦ place_all runtime_id ds rows'
]

-- The transaction of ReplaceDetected.
unfoldable pub detect_into :
    Database → Runtime → List (String × DetectedVersion) → Database × Outcome RuntimeError Runtime
detect_into db rt ds = elim (place_all rt.id ds (map (mark_missing rt.id) db.versions)) [
  | none ↦ (db, failed database_error)
  | some rows ↦ (record db { versions = rows }, done rt)
]

unfoldable pub replace_detected :
    Database
    → String
    → String
    → String
    → List (String × DetectedVersion)
    → Database × Outcome RuntimeError Runtime
replace_detected db id kind name ds =
    let ensured = ensure_runtime db id kind name in
    elim ensured.1 [ failed e ↦ (ensured.0, failed e) | done rt ↦ detect_into ensured.0 rt ds ]

unfoldable pub scan_version : VersionRow → Version
scan_version r = record {
  id = r.id;
  runtime_id = r.runtime_id;
  version = r.version;
  install_path = elim r.install_path [ none ↦ "" | some path ↦ path ];
  is_default = not (r.is_default == 0);
  status = r.status;
}

abbrev not_after : String → String → Bool
not_after a b = elim (compare a b) [ Ordering.gt ↦ false | _ ↦ true ]

module _ {A : Type 0} (column : A → String) where
  unfoldable insert_text : A → List A → List A
  insert_text a [] = a ∷ []
  insert_text a (b ∷ rows) =
      let rest = insert_text a rows in
      if not_after (column a) (column b) then a ∷ b ∷ rows else b ∷ rest

  -- ORDER BY a column of texts, ties in the order of insertion
  unfoldable pub order_text : List A → List A
  unfolding insert_text
  order_text [] = []
  order_text (a ∷ rows) = insert_text a (order_text rows)

unfoldable pub list_versions : Database → String → List Version
list_versions db runtime_id =
    map scan_version
      (order_text (λ (r : VersionRow). r.version) (keep (is_of runtime_id) db.versions))

unfoldable pub list_runtimes : Database → Outcome RuntimeError (List WithVersions)
list_runtimes db =
    let bundle : Runtime → WithVersions =
      λ rt. record { runtime = rt; versions = list_versions db rt.id } in
    if db.is_up
    then done (map bundle (order_text runtime_kind db.runtimes))
    else failed database_error

unfoldable pub clear_default : String → VersionRow → VersionRow
clear_default runtime_id r = if is_of runtime_id r then record r { is_default = 0 } else r

unfoldable pub make_default : String → String → VersionRow → VersionRow
make_default runtime_id version r =
    if is_pair runtime_id version r then record r { is_default = 1 } else r

-- The transaction of SetDefaultVersion.
unfoldable pub set_default_of : Database → Runtime → String → Database × Option RuntimeError
set_default_of db rt version =
    if tally (is_pair rt.id version) db.versions == 0 then (db, some version_not_found) else (
      record db {
        versions = map (make_default rt.id version) (map (clear_default rt.id) db.versions);
      },
      none,
    )

unfoldable pub set_default_version : Database → String → String → Database × Option RuntimeError
set_default_version db kind version = elim (get_runtime_by_kind db kind) [
  | failed e ↦ (db, some e)
  | done found ↦ elim found [
    | none ↦ (db, some version_not_found)
    | some rt ↦ set_default_of db rt version
  ]
]
