-- ===== src/Jobs.antt =====
-- internal/domain/job/job.go over the `jobs` table. A new id and the time are arguments; an instant
-- is a number of nanoseconds, of which a column keeps the seconds.
pub mod Stale
pub mod Listing
use alresia_voltpanel.Prelude.{
  ℕ, suc, ◌*◌, ◌/◌, String, Bool, true, false, not, Option, none, some, List, [], ◌∷◌, ◌++◌, map,
  str_eq, if◌then◌else◌, tally, Outcome, failed, done,
}
use mathlib.Core.Option
use alresia_voltpanel.Prelude.Int.{ℤ}
use alresia_voltpanel.Prelude.Table.{order_by, find_by, has_key, change}
use alresia_voltpanel.Storage.{second}

abbrev pub status_running : String
status_running = "running"

abbrev pub status_success : String
status_success = "success"

abbrev pub status_failed : String
status_failed = "failed"

abbrev pub status_canceled : String
status_canceled = "canceled"

pub record Job : Type 0 where
  pub id : String
  pub kind : String
  pub target : String
  pub status : String
  pub log_file : String
  pub error : String
  pub exit_code : Option ℤ
  pub started_at : ℕ
  pub finished_at : Option ℕ

-- The columns; instants in seconds.
pub record JobRow : Type 0 where
  pub id : String
  pub kind : String
  pub target : String
  pub status : String
  pub log_file : String
  pub error : Option String
  pub exit_code : Option ℤ
  pub started_at : ℕ
  pub finished_at : Option ℕ

pub record JobTable : Type 0 where
  pub rows : List JobRow
  pub is_up : Bool

pub data JobError : Type 0 where
  not_found : JobError
  database_error : JobError

abbrev pub job_id : JobRow → String
job_id r = r.id

-- COALESCE(error, '')
abbrev text_of : Option String → String
text_of none = ""
text_of (some s) = s

unfoldable pub scan_job : JobRow → Job
scan_job r = record {
  id = r.id;
  kind = r.kind;
  target = r.target;
  status = r.status;
  log_file = r.log_file;
  error = text_of r.error;
  exit_code = r.exit_code;
  started_at = r.started_at * second;
  finished_at = Option.map (λ t. t * second) r.finished_at;
}

unfoldable pub create_job :
    JobTable → String → ℕ → String → String → String → JobTable × Outcome JobError Job
create_job table id now kind target log_file =
    let j : Job = record {
      id = id;
      kind = kind;
      target = target;
      status = status_running;
      log_file = log_file;
      error = "";
      exit_code = none;
      started_at = now;
      finished_at = none;
    } in
    let r : JobRow = record {
      id = id;
      kind = kind;
      target = target;
      status = status_running;
      log_file = log_file;
      error = none;
      exit_code = none;
      started_at = now / second;
      finished_at = none;
    } in
    if not table.is_up
    then (table, failed database_error)
    else if has_key job_id id table.rows
    then (table, failed database_error)
    else (record table { rows = table.rows ++ r ∷ [] }, done j)

-- UPDATE jobs ... WHERE id = ?, which does not look at the number of rows
unfoldable pub update_job : JobTable → String → (JobRow → JobRow) → JobTable × Option JobError
update_job table id f =
    if table.is_up
    then (record table { rows = change job_id id f table.rows }, none)
    else (table, some database_error)

unfoldable pub set_log_file : JobTable → String → String → JobTable × Option JobError
set_log_file table id log_file = update_job table id (λ r. record r { log_file = log_file })

unfoldable pub finished_row : String → ℤ → String → ℕ → JobRow → JobRow
finished_row status exit_code message now r = record r {
  status = status;
  exit_code = some exit_code;
  error = if str_eq message "" then none else some message;
  finished_at = some (now / second);
}

unfoldable pub finish_job : JobTable → String → String → ℤ → String → ℕ → JobTable × Option JobError
finish_job table id status exit_code message now =
    update_job table id (finished_row status exit_code message now)

unfoldable pub is_running : JobRow → Bool
is_running r = str_eq r.status status_running

-- the row of a job that a stop of the daemon interrupted
unfoldable pub interrupted : ℕ → JobRow → JobRow
interrupted now r = record r {
  status = status_failed;
  error = some "interrupted: daemon restarted while this job was still running";
  finished_at = some (now / second);
}

unfoldable pub reconcile_rows : ℕ → List JobRow → List JobRow
reconcile_rows now [] = []
reconcile_rows now (r ∷ rows) =
    (if is_running r then interrupted now r else r) ∷ reconcile_rows now rows

-- with the number of rows that it changes
unfoldable pub reconcile_stale : JobTable → ℕ → JobTable × Outcome JobError ℕ
reconcile_stale table now =
    if table.is_up
    then (record table { rows = reconcile_rows now table.rows }, done (tally is_running table.rows))
    else (table, failed database_error)

unfoldable pub get_job : JobTable → String → Outcome JobError Job
get_job table id =
    let found : Outcome JobError Job = elim (find_by job_id id table.rows) [
      | none ↦ failed not_found
      | some r ↦ done (scan_job r)
    ] in
    if table.is_up then found else failed database_error

unfoldable pub backwards : List JobRow → List JobRow
backwards [] = []
backwards (r ∷ rows) = backwards rows ++ r ∷ []

-- ORDER BY started_at DESC, rowid DESC
unfoldable pub newest_first : List JobRow → List JobRow
newest_first rows = backwards (order_by (λ (r : JobRow). r.started_at) rows)

unfoldable pub list_jobs : JobTable → Outcome JobError (List Job)
list_jobs table =
    if table.is_up then done (map scan_job (newest_first table.rows)) else failed database_error
