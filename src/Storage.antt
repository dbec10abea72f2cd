-- ===== src/Storage.antt =====
-- internal/storage/service_lifecycle_repo.go: the rows of the `services` table.
-- The table is a list in rowid order; `encoding/json` carries `Args`, `Env` and `DependsOn` over
-- unchanged. An instant is a number of nanoseconds, and `time.RFC3339` keeps its seconds.
pub mod Rows
use alresia_voltpanel.Prelude.{
  ℕ, ◌*◌, ◌/◌, ◌^◌, ◌+◌, String, Bool, true, false, not, Option, none, some, List, [], ◌∷◌, ◌++◌,
  map, str_eq, ◌==◌, leb, if◌then◌else◌,
}
use mathlib.Core.Option
use alresia_voltpanel.Prelude.Int.{ℤ}

pub record ServiceRecord : Type 0 where
  pub id : String
  pub project_id : String
  pub kind : String
  pub name : String
  pub command : String
  pub args : List String
  pub cwd : String
  pub env : List (String × String)
  pub autostart : Bool
  pub depends_on : List String
  pub restart_policy : String
  pub graceful_timeout_seconds : ℤ
  pub max_restarts : ℤ
  pub restart_window_seconds : ℤ
  pub status : String
  pub pid : ℕ
  pub log_file : String
  pub started_at : Option ℕ
  pub exited_at : Option ℕ
  pub exit_code : Option ℤ

-- The columns, `none` for NULL.
pub record Row : Type 0 where
  pub id : String
  pub project_id : Option String
  pub kind : String
  pub name : String
  pub command : String
  pub args : List String
  pub cwd : Option String
  pub env : List (String × String)
  pub autostart : Option ℕ
  pub depends_on : List String
  pub restart_policy : String
  pub graceful_timeout_seconds : ℤ
  pub max_restarts : ℤ
  pub restart_window_seconds : ℤ
  pub status : String
  pub pid : Option ℕ
  pub log_path : Option String
  pub started_at : Option ℕ
  pub exited_at : Option ℕ
  pub exit_code : Option ℤ
  pub created_at : ℕ

abbrev pub second : ℕ
second = 10 ^ 9

pub nullable_int : ℕ → Option ℕ
nullable_int v = if v == 0 then none else some v

pub bool_to_int : Bool → ℕ
bool_to_int b = if b then 1 else 0

-- a NULL `sql.NullString` reads as ""
abbrev text : Option String → String
text none = ""
text (some s) = s

abbrev nullable : String → Option String
nullable s = if str_eq s "" then none else some s

abbrev or_else : String → String → String
or_else v fallback = if str_eq v "" then fallback else v

-- the arguments of the INSERT; `now` is a number of seconds
unfoldable pub to_row : ℕ → ServiceRecord → Row
unfolding nullable_int bool_to_int
to_row now r = record {
  id = r.id;
  project_id = nullable r.project_id;
  kind = or_else r.kind "native";
  name = r.name;
  command = r.command;
  args = r.args;
  cwd = some r.cwd;
  env = r.env;
  autostart = some (bool_to_int r.autostart);
  depends_on = r.depends_on;
  restart_policy = or_else r.restart_policy "on-failure";
  graceful_timeout_seconds = r.graceful_timeout_seconds;
  max_restarts = r.max_restarts;
  restart_window_seconds = r.restart_window_seconds;
  status = r.status;
  pid = nullable_int r.pid;
  log_path = some r.log_file;
  started_at = Option.map (λ t. t / second) r.started_at;
  exited_at = Option.map (λ t. t / second) r.exited_at;
  exit_code = r.exit_code;
  created_at = now;
}

-- scanServiceRecord
unfoldable pub scan_service_record : Row → ServiceRecord
scan_service_record w = record {
  id = w.id;
  project_id = text w.project_id;
  kind = w.kind;
  name = w.name;
  command = w.command;
  args = w.args;
  cwd = text w.cwd;
  env = w.env;
  autostart = elim w.autostart [ none ↦ false | some n ↦ not (n == 0) ];
  depends_on = w.depends_on;
  restart_policy = w.restart_policy;
  graceful_timeout_seconds = w.graceful_timeout_seconds;
  max_restarts = w.max_restarts;
  restart_window_seconds = w.restart_window_seconds;
  status = w.status;
  pid = elim w.pid [ none ↦ 0 | some p ↦ p ];
  log_file = text w.log_path;
  started_at = Option.map (λ t. t * second) w.started_at;
  exited_at = Option.map (λ t. t * second) w.exited_at;
  exit_code = w.exit_code;
}

-- `reads` and `writes` say whether the database answers the next query, the next statement.
pub record Store : Type 0 where
  pub services : List Row
  pub reads : Bool
  pub writes : Bool
  pub log_dir : String

-- ON CONFLICT(id) DO UPDATE: every column but `created_at`
pub upsert_row : Row → List Row → List Row
upsert_row w [] = w ∷ []
upsert_row w (x ∷ xs) =
    if str_eq x.id w.id then record w { created_at = x.created_at } ∷ xs else x ∷ upsert_row w xs

-- `none` when the statement fails
unfoldable pub upsert_service_record : ℕ → ServiceRecord → Store → Option Store
unfolding upsert_row to_row
upsert_service_record now r s =
    if s.writes then some (record s { services = upsert_row (to_row now r) s.services }) else none

pub find_row : String → List Row → Option Row
find_row id [] = none
find_row id (x ∷ xs) = if str_eq x.id id then some x else find_row id xs

-- a failing query reads as "not there"
unfoldable pub get_service_record : String → Store → Option ServiceRecord
unfolding find_row
get_service_record id s =
    if s.reads then Option.map scan_service_record (find_row id s.services) else none

insert_by_created : Row → List Row → List Row
insert_by_created w [] = w ∷ []
insert_by_created w (x ∷ xs) =
    if leb w.created_at x.created_at then w ∷ x ∷ xs else x ∷ insert_by_created w xs

pub order_by_created : List Row → List Row
unfolding insert_by_created
order_by_created [] = []
order_by_created (x ∷ xs) = insert_by_created x (order_by_created xs)

unfoldable pub list_service_records : Store → Option (List ServiceRecord)
unfolding order_by_created scan_service_record
list_service_records s =
    if s.reads then some (map scan_service_record (order_by_created s.services)) else none

delete_rows : String → List Row → List Row
delete_rows project_id [] = []
delete_rows project_id (x ∷ xs) =
    let rest = delete_rows project_id xs in
    elim x.project_id [ none ↦ x ∷ rest | some p ↦ if str_eq p project_id then rest else x ∷ rest ]

unfoldable pub delete_service_records_for_project : String → Store → Option Store
unfolding delete_rows
delete_service_records_for_project project_id s =
    if s.writes then some (record s { services = delete_rows project_id s.services }) else none
