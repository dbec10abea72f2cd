-- ===== src/Deployment.antt =====
-- The tables of internal/domain/deployment: target.go and deployment.go. Engine has engine.go.
-- A new id and the time are arguments; an instant is a number of seconds, as the columns keep it.
pub mod Shell
pub mod Text
pub mod Engine
pub mod Calls
pub mod Rows
pub mod Runs
pub mod Rollbacks
use alresia_voltpanel.Prelude.{
  ℕ, String, Bool, true, false, not, ◌||◌, Option, none, some, List, [], ◌∷◌, ◌++◌, map, str_eq,
  elem, if◌then◌else◌, keep, Outcome, failed, done,
}
use alresia_voltpanel.Prelude.Table.{order_by, find_by, has_key, change, delete_by}

pub record Target : Type 0 where
  pub id : String
  pub project_id : String
  pub server_id : String
  pub repo_url : String
  pub integration_id : String
  pub branch : String
  pub deploy_path : String
  pub install_command : String
  pub restart_command : String
  pub health_check_url : String
  pub created_at : ℕ
  pub updated_at : ℕ

pub record CreateTargetRequest : Type 0 where
  pub project_id : String
  pub server_id : String
  pub repo_url : String
  pub integration_id : String
  pub branch : String
  pub deploy_path : String
  pub install_command : String
  pub restart_command : String
  pub health_check_url : String

pub record Deployment : Type 0 where
  pub id : String
  pub project_id : String
  pub server_id : String
  pub commit_sha : String
  pub branch : String
  pub status : String
  pub started_at : Option ℕ
  pub finished_at : Option ℕ
  pub duration_ms : ℕ
  pub log_ref : String
  pub code_rollback_ref : String
  pub artifact_rollback_ref : String
  pub migration_rollback_supported : Bool

-- `nullable` turns an empty text into NULL and the scans turn it back, so that a row is written as
-- the struct it is scanned into. `projects`, `servers` and `integrations` are the ids of those
-- tables; `is_up` is false while every statement fails.
pub record Tables : Type 0 where
  pub projects : List String
  pub servers : List String
  pub integrations : List String
  pub targets : List Target
  pub deployments : List Deployment
  pub is_up : Bool

pub data TableError : Type 0 where
  not_found : TableError
  database_error : TableError

abbrev pub target_id : Target → String
target_id t = t.id

abbrev pub deployment_id : Deployment → String
deployment_id d = d.id

unfoldable pub create_target :
    Tables → String → ℕ → CreateTargetRequest → Tables × Outcome TableError Target
create_target db id now req =
    let t : Target = record {
      id = id;
      project_id = req.project_id;
      server_id = req.server_id;
      repo_url = req.repo_url;
      integration_id = req.integration_id;
      branch = if str_eq req.branch "" then "main" else req.branch;
      deploy_path = req.deploy_path;
      install_command = req.install_command;
      restart_command = req.restart_command;
      health_check_url = req.health_check_url;
      created_at = now;
      updated_at = now;
    } in
    if not db.is_up
      || has_key target_id id db.targets
      || not (elem t.project_id db.projects)
      || not (elem t.server_id db.servers)
      || not (str_eq t.integration_id "" || elem t.integration_id db.integrations)
    then (db, failed database_error)
    else (record db { targets = db.targets ++ t ∷ [] }, done t)

unfoldable pub get_target : Tables → String → Outcome TableError Target
get_target db id =
    let found : Outcome TableError Target = elim (find_by target_id id db.targets) [
      | none ↦ failed not_found
      | some t ↦ done t
    ] in
    if db.is_up then found else failed database_error

unfoldable pub targets_of_project : Tables → String → Outcome TableError (List Target)
targets_of_project db project_id =
    if db.is_up
    then done (
        order_by (λ (t : Target). t.created_at)
          (keep (λ (t : Target). str_eq t.project_id project_id) db.targets))
    else failed database_error

unfoldable pub delete_target : Tables → String → Tables × Option TableError
delete_target db id =
    if not db.is_up
    then (db, some database_error)
    else if has_key target_id id db.targets
    then (record db { targets = delete_by target_id id db.targets }, none)
    else (db, some not_found)

-- `create` of Repository
unfoldable pub insert_deployment : Tables → Deployment → Tables × Option TableError
insert_deployment db d =
    if not db.is_up
      || has_key deployment_id d.id db.deployments
      || not (elem d.project_id db.projects)
      || not (elem d.server_id db.servers)
    then (db, some database_error)
    else (record db { deployments = db.deployments ++ d ∷ [] }, none)

-- What `finish` writes into a row.
pub record Ending : Type 0 where
  pub status : String
  pub commit_sha : String
  pub code_rollback_ref : String
  pub log_ref : String
  pub duration_ms : ℕ
  pub now : ℕ

unfoldable pub ended : Ending → Deployment → Deployment
ended e d = record d {
  status = e.status;
  finished_at = some e.now;
  duration_ms = e.duration_ms;
  commit_sha = e.commit_sha;
  code_rollback_ref = e.code_rollback_ref;
  log_ref = e.log_ref;
}

-- `finish` of Repository, which does not look at the number of rows
unfoldable pub finish_deployment : Tables → String → Ending → Tables × Option TableError
finish_deployment db id e =
    if db.is_up
    then (record db { deployments = change deployment_id id (ended e) db.deployments }, none)
    else (db, some database_error)

unfoldable pub get_deployment : Tables → String → Outcome TableError Deployment
get_deployment db id =
    let found : Outcome TableError Deployment = elim (find_by deployment_id id db.deployments) [
      | none ↦ failed not_found
      | some d ↦ done d
    ] in
    if db.is_up then found else failed database_error

-- `Log`, with `os.ReadFile` as an argument
unfoldable pub read_deployment_log :
    Tables → (String → Outcome String String) → String → Outcome TableError (Outcome String String)
read_deployment_log db read_file id = elim (get_deployment db id) [
  | failed e ↦ failed e
  | done d ↦ done (if str_eq d.log_ref "" then done "" else read_file d.log_ref)
]
