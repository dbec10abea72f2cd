-- ===== src/Deployment/Calls.antt =====
-- `Deploy` and `Rollback` of internal/domain/deployment/engine.go, over the database and the host. The
-- database is as reachable as at the call until the new row is in the table; `Later` is how it is
-- after the run, which may have taken long.
use alresia_voltpanel.Prelude.{
  ℕ, ◌-◌, ◌/◌, String, Bool, false, not, Option, none, some, [], ◌∷◌, str_eq, concat, elem,
  if◌then◌else◌, Outcome, failed, done,
}
use alresia_voltpanel.Deployment.{
  Target, Deployment, Tables, TableError, not_found, database_error, get_target, targets_of_project,
  insert_deployment, finish_deployment, get_deployment,
}
use alresia_voltpanel.Deployment.Engine.{
  Host, Cause, message, Ended, fine, because, panicked, Progress, in_session, roll_back_to,
  with_session, write_log,
}

-- What the calls return: an error before the run, or the row with the run's error, or nothing because
-- of a panic.
pub data Answer : Type 0 where
  no_target : TableError → Answer
  no_server : TableError → Answer
  no_deployment : TableError → Answer
  no_rollback_ref : String → Answer
  no_project_target : String → Answer
  table_failed : TableError → Answer
  recorded : Deployment → Option Cause → Answer
  crashed : Answer

-- whether the database can be reached by `finish` and by the Get after it
pub record Later : Type 0 where
  pub finishes : Bool
  pub reads : Bool

-- the `Servers` repository's Get
unfoldable pub find_server : Tables → String → Option TableError
find_server db id =
    if not db.is_up
    then some database_error
    else if elem id db.servers
    then none
    else some not_found

unfoldable pub new_deployment : String → ℕ → String → Target → Deployment
new_deployment id now project_id target = record {
  id = id;
  project_id = project_id;
  server_id = target.server_id;
  commit_sha = "";
  branch = target.branch;
  status = "running";
  started_at = some (now / 1000);
  finished_at = none;
  duration_ms = 0;
  log_ref = "";
  code_rollback_ref = "";
  artifact_rollback_ref = "";
  migration_rollback_supported = false;
}

unfoldable pub status_of : Option Cause → String
status_of none = "success"
status_of (some c) = "failed"

unfoldable pub log_text : String → Option Cause → String
log_text log none = log
log_text log (some c) = concat log (concat "\nERROR: " (concat (message c) "\n"))

unfoldable pub log_ref : Outcome String String → String
log_ref (failed e) = ""
log_ref (done path) = path

-- the last lines: the row as it is now, or an error of the table
unfoldable pub report : Tables → String → Option TableError → Option Cause → Answer
report db id (some e) cause = table_failed e
report db id none cause = elim (get_deployment db id) [
  | failed e ↦ table_failed e
  | done final ↦ recorded final cause
]

module _ {W : Type 0} (host : Host W) where
  -- from the end of the anonymous function on; `start` is the time before it
  unfoldable pub record_run :
      Tables
      → String
      → ℕ
      → String
      → String
      → Later
      → Progress W
      → Option Cause
      → Tables × W × Answer
  unfolding report status_of log_ref
  record_run db id start commit_sha rollback_ref later p cause =
      let (w', written) = write_log host p.world id (log_text p.log cause) in
      let (db', e) =
        finish_deployment (record db { is_up = later.finishes }) id
          (record {
            status = status_of cause;
            commit_sha = commit_sha;
            code_rollback_ref = rollback_ref;
            log_ref = log_ref written;
            duration_ms = host.now w' - start;
            now = host.now w' / 1000;
          }) in
      let after = record db' { is_up = later.reads } in (after, w', report after id e cause)

  unfoldable pub conclude :
      Tables → String → ℕ → String → String → Later → Progress W → Ended → Tables × W × Answer
  conclude db id start commit_sha rollback_ref later p fine =
      record_run db id start commit_sha rollback_ref later p none
  conclude db id start commit_sha rollback_ref later p (because c) =
      record_run db id start commit_sha rollback_ref later p (some c)
  conclude db id start commit_sha rollback_ref later p panicked = (db, p.world, crashed)

  abbrev fresh : W → Progress W
  fresh w = record { world = w; log = ""; commit_sha = ""; code_rollback_ref = "" }

  -- once the target and its server are found
  unfoldable pub run_deploy : Tables → W → Later → String → Target → Tables × W × Answer
  run_deploy db w later id target =
      let (db', e) =
        insert_deployment db (new_deployment id (host.now w) target.project_id target) in
      let (p, how) = with_session host target.server_id (in_session host target) (fresh w) in
      elim e [
        | some x ↦ (db', w, table_failed x)
        | none ↦ conclude db' id (host.now w) p.commit_sha p.code_rollback_ref later p how
      ]

  unfoldable pub deploy : Tables → W → Later → String → String → Tables × W × Answer
  deploy db w later id target_id = elim (get_target db target_id) [
    | failed e ↦ (db, w, no_target e)
    | done target ↦ elim (find_server db target.server_id) [
      | some e ↦ (db, w, no_server e)
      | none ↦ run_deploy db w later id target
    ]
  ]

  -- once the deployment to return to, a target and its server are found
  unfoldable pub run_rollback :
      Tables → W → Later → String → Deployment → Target → Tables × W × Answer
  run_rollback db w later id prev target =
      let ref = prev.code_rollback_ref in
      let (db', e) = insert_deployment db (new_deployment id (host.now w) prev.project_id target) in
      let (p, how) = with_session host target.server_id (roll_back_to host target ref) (fresh w) in
      elim e [
        | some x ↦ (db', w, table_failed x)
        | none ↦ conclude db' id (host.now w) ref "" later p how
      ]

  unfoldable pub rollback_with :
      Tables → W → Later → String → Deployment → Target → Tables × W × Answer
  rollback_with db w later id prev target = elim (find_server db target.server_id) [
    | some e ↦ (db, w, no_server e)
    | none ↦ run_rollback db w later id prev target
  ]

  unfoldable pub rollback : Tables → W → Later → String → String → Tables × W × Answer
  rollback db w later id deployment_id = elim (get_deployment db deployment_id) [
    | failed e ↦ (db, w, no_deployment e)
    | done prev ↦
        (let go : Tables × W × Answer = elim (targets_of_project db prev.project_id) [
          | failed e ↦ (db, w, no_project_target prev.project_id)
          | done targets ↦ elim targets [
            | [] ↦ (db, w, no_project_target prev.project_id)
            | target ∷ others ↦ rollback_with db w later id prev target
          ]
        ] in
          if str_eq prev.code_rollback_ref "" then (db, w, no_rollback_ref deployment_id) else go)
  ]
