-- ===== src/Plugins/Extensions.antt =====
-- internal/domain/extension/extension.go: the `extensions` table, the loaded processes and the
-- registry. A process is a handle of `processes`, where the calls of its provider find its state.
use Prim.Native.Nat.{Ordering}
use Prim.Native.String.{compare}
use alresia_voltpanel.Prelude.{
  ℕ, suc, String, Bool, true, false, not, ◌||◌, Option, none, some, List, [], ◌∷◌, ◌++◌, str_eq,
  if◌then◌else◌, Outcome, failed, done,
}
use alresia_voltpanel.Prelude.Dict
use alresia_voltpanel.Prelude.Dict.{Dict, get, put, nat_key, string_key}
use alresia_voltpanel.Prelude.Paths.{FilePath}
use alresia_voltpanel.Prelude.Table.{find_by, has_key, change, delete_by}
use alresia_voltpanel.Plugins.Protocol.{Manifest, Json, Files, ManifestError, read_manifest}
use alresia_voltpanel.Plugins.Host.{
  ExternalProvider, LoadError, Launch, close, kind, load_extension,
}
use alresia_voltpanel.Plugins.Registry.{Registry, register_runtime, unregister_runtime}

pub record Extension : Type 0 where
  pub id : String
  pub name : String
  pub version : String
  pub kind : String
  pub source : FilePath
  pub enabled : Bool
  pub permissions : List String

-- the columns
pub record Row : Type 0 where
  pub id : String
  pub name : String
  pub version : String
  pub kind : String
  pub source : FilePath
  pub enabled : Bool
  pub permissions : String

-- a provider of the registry
pub data Provider : Type 0 where
  built_in : String → Provider
  external : ℕ → Provider

pub record Repository : Type 0 where
  pub rows : List Row
  pub loaded : Dict String ℕ
  pub processes : Dict ℕ ExternalProvider
  pub next : ℕ
  pub registry : Registry Provider

-- whether a query and a statement of this operation reach the database, and the outside
pub record World : Type 0 where
  pub queries : Bool
  pub executes : Bool
  pub files : Files
  pub launch : Launch

pub data ExtensionError : Type 0 where
  not_found : ExtensionError
  unsupported_kind : String → ExtensionError
  database_error : ExtensionError
  bad_permissions : ExtensionError
  bad_manifest : ManifestError → ExtensionError
  not_loaded : LoadError → ExtensionError

abbrev pub row_id : Row → String
row_id r = r.id

abbrev with_permissions : Row → List String → Extension
with_permissions r permissions = record {
  id = r.id;
  name = r.name;
  version = r.version;
  kind = r.kind;
  source = r.source;
  enabled = r.enabled;
  permissions = permissions;
}

unfoldable pub scan_extension : Json → Row → Outcome ExtensionError Extension
scan_extension json r =
    let decoded : Outcome ExtensionError Extension = elim (json.parse_permissions r.permissions) [
      | none ↦ failed bad_permissions
      | some permissions ↦ done (with_permissions r permissions)
    ] in
    if str_eq r.permissions "" then done (with_permissions r []) else decoded

abbrev not_after : String → String → Bool
not_after a b = elim (compare a b) [ Ordering.gt ↦ false | _ ↦ true ]

-- ORDER BY name
unfoldable pub insert_by_name : Row → List Row → List Row
insert_by_name r [] = r ∷ []
insert_by_name r (s ∷ rows) =
    let rest = insert_by_name r rows in if not_after r.name s.name then r ∷ s ∷ rows else s ∷ rest

unfoldable pub by_name : List Row → List Row
unfolding insert_by_name
by_name [] = []
by_name (r ∷ rows) = insert_by_name r (by_name rows)

unfoldable pub scan_all : Json → List Row → Outcome ExtensionError (List Extension)
unfolding scan_extension
scan_all json [] = done []
scan_all json (r ∷ rows) =
    let rest = scan_all json rows in
    elim (scan_extension json r) [
      | failed e ↦ failed e
      | done x ↦ elim rest [ failed e ↦ failed e | done xs ↦ done (x ∷ xs) ]
    ]

unfoldable pub list : Json → World → List Row → Outcome ExtensionError (List Extension)
unfolding scan_all by_name
list json world rows = if world.queries then scan_all json (by_name rows) else failed database_error

unfoldable pub found : Json → Option Row → Outcome ExtensionError Extension
unfolding scan_extension
found json none = failed not_found
found json (some r) = scan_extension json r

-- Get, whose `false` is answered as `not_found` by every caller
unfoldable pub get_extension : Json → World → Repository → String → Outcome ExtensionError Extension
unfolding found
get_extension json world repo id =
    if world.queries then found json (find_by row_id id repo.rows) else failed database_error

abbrev row_of : String → String → Manifest → FilePath → Row
row_of id permissions m dir = record {
  id = id;
  name = m.name;
  version = m.version;
  kind = m.kind;
  source = dir;
  enabled = false;
  permissions = permissions;
}

unfoldable pub insert :
    World → Repository → Row → List String → Repository × Outcome ExtensionError Extension
insert world repo r permissions =
    if not world.executes || has_key row_id r.id repo.rows
    then (repo, failed database_error)
    else (record repo { rows = repo.rows ++ r ∷ [] }, done (with_permissions r permissions))

unfoldable pub install :
    Json → World → Repository → String → FilePath → Repository × Outcome ExtensionError Extension
unfolding insert
install json world repo id path = elim (read_manifest json world.files path) [
  | failed e ↦ (repo, failed (bad_manifest e))
  | done (m, dir) ↦ elim (json.print_permissions m.permissions) [
    | none ↦ (repo, failed bad_permissions)
    | some text ↦ insert world repo (row_of id text m dir) m.permissions
  ]
]

-- Close of the provider with that handle
unfoldable pub close_process : ℕ → Dict ℕ ExternalProvider → Dict ℕ ExternalProvider
unfolding put get
close_process h processes = elim (get h processes) [
  | none ↦ processes
  | some e ↦ put h (close e) processes
]

unfoldable pub provider_kind : Dict ℕ ExternalProvider → Provider → String
unfolding get
provider_kind processes (built_in k) = k
provider_kind processes (external h) = elim (get h processes) [ none ↦ "" | some e ↦ kind e ]

-- the process that is loaded for that extension is closed
unfoldable pub drop_loaded : Repository → String → Repository
unfolding close_process get Dict.remove
drop_loaded repo id = elim (get id repo.loaded) [
  | none ↦ repo
  | some h ↦ record repo {
    loaded = Dict.remove id repo.loaded;
    processes = close_process h repo.processes;
  }
]

-- the process of LoadExtension under a new handle
unfoldable pub start_process : Repository → Option ExternalProvider → Repository
unfolding put
start_process repo none = repo
start_process repo (some e) = record repo {
  processes = put repo.next e repo.processes;
  next = suc repo.next;
}

-- r.loaded[ext.ID] = ep, and RegisterRuntime
unfoldable pub register_loaded : Repository → String → ℕ → Repository
unfolding put register_runtime
register_loaded repo id h = record repo {
  loaded = put id h repo.loaded;
  registry = register_runtime (provider_kind repo.processes) repo.registry (external h);
}

unfoldable pub launched :
    Repository
    → String
    → Option ExternalProvider × Option LoadError
    → Repository × Option ExtensionError
unfolding start_process register_loaded
launched repo id (started, none) = (register_loaded (start_process repo started) id repo.next, none)
launched repo id (started, some err) = (start_process repo started, some (not_loaded err))

unfoldable pub load_and_register :
    Json → World → Repository → Extension → Repository × Option ExtensionError
unfolding launched drop_loaded
load_and_register json world repo ext =
    if str_eq ext.kind "runtime"
    then launched (drop_loaded repo ext.id) ext.id
        (load_extension json world.files world.launch ext.source)
    else (repo, some (unsupported_kind ext.kind))

unfoldable pub set_enabled :
    World → Bool → Repository → Extension → Repository × Outcome ExtensionError Extension
set_enabled world b repo ext =
    if world.executes
    then (
      record repo { rows = change row_id ext.id (λ (r : Row). record r { enabled = b }) repo.rows },
      done (record ext { enabled = b }),
    )
    else (repo, failed database_error)

unfoldable pub enable_loaded :
    World
    → Extension
    → Repository × Option ExtensionError
    → Repository × Outcome ExtensionError Extension
unfolding set_enabled
enable_loaded world ext (repo, some e) = (repo, failed e)
enable_loaded world ext (repo, none) = set_enabled world true repo ext

unfoldable pub enable :
    Json → World → Repository → String → Repository × Outcome ExtensionError Extension
unfolding enable_loaded load_and_register
enable json world repo id = elim (get_extension json world repo id) [
  | failed e ↦ (repo, failed e)
  | done ext ↦ enable_loaded world ext (load_and_register json world repo ext)
]

-- UnregisterRuntime and Close of a loaded process
unfoldable pub withdraw : ℕ → Repository → Repository
unfolding unregister_runtime provider_kind close_process
withdraw h repo = record repo {
  registry = unregister_runtime repo.registry (provider_kind repo.processes (external h));
  processes = close_process h repo.processes;
}

unfoldable pub unload : Repository → String → Repository
unfolding withdraw get Dict.remove
unload repo id = elim (get id repo.loaded) [
  | none ↦ repo
  | some h ↦ withdraw h (record repo { loaded = Dict.remove id repo.loaded })
]

unfoldable pub disable :
    Json → World → Repository → String → Repository × Outcome ExtensionError Extension
unfolding set_enabled unload
disable json world repo id = elim (get_extension json world repo id) [
  | failed e ↦ (repo, failed e)
  | done ext ↦ set_enabled world false (unload repo id) ext
]

unfoldable pub delete_row : World → Repository → String → Repository × Option ExtensionError
delete_row world repo id =
    if world.executes
    then (record repo { rows = delete_by row_id id repo.rows }, none)
    else (repo, some database_error)

-- DELETE after the answer of Disable
unfoldable pub delete_disabled :
    World
    → String
    → Repository × Outcome ExtensionError Extension
    → Repository × Option ExtensionError
unfolding delete_row
delete_disabled world id (repo, failed e) = (repo, some e)
delete_disabled world id (repo, done ext) = delete_row world repo id

unfoldable pub remove : Json → World → Repository → String → Repository × Option ExtensionError
unfolding delete_disabled disable delete_row
remove json world repo id = elim (get_extension json world repo id) [
  | failed e ↦ (repo, some e)
  | done ext ↦
      if ext.enabled
      then delete_disabled world id (disable json world repo id)
      else delete_row world repo id
]

-- `worlds` gives the outside that the load of each extension meets.
unfoldable pub load_all : Json → (String → World) → Repository → List Extension → Repository
unfolding load_and_register
load_all json worlds repo [] = repo
load_all json worlds repo (ext ∷ exts) =
    load_all json worlds
      (if ext.enabled then (load_and_register json (worlds ext.id) repo ext).0 else repo) exts

unfoldable pub load_enabled : Json → World → (String → World) → Repository → Repository
unfolding load_all list
load_enabled json world worlds repo = elim (list json world repo.rows) [
  | failed e ↦ repo
  | done exts ↦ load_all json worlds repo exts
]

unfoldable pub withdraw_all : Dict String ℕ → Repository → Repository
unfolding withdraw
withdraw_all [] repo = repo
withdraw_all ((id, h) ∷ loaded) repo = withdraw_all loaded (withdraw h repo)

unfoldable pub close_all : Repository → Repository
unfolding withdraw_all
close_all repo = withdraw_all repo.loaded (record repo { loaded = [] })
