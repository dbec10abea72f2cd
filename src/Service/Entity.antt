-- ===== src/Service/Entity.antt =====
-- internal/domain/service/service.go: the Service entity, its defaults and its persisted form.
-- A `time.Duration` is an int64 of nanoseconds, and an instant a number of nanoseconds.
pub mod Persist
use alresia_voltpanel.Prelude.{ℕ, ◌*◌, String, Bool, Option, none, List, str_eq, if◌then◌else◌}
use alresia_voltpanel.Prelude.Int.{ℤ, pos, is_positive, quotient, times}
use alresia_voltpanel.Storage.{ServiceRecord, second}

-- type Status string
abbrev pub status_stopped : String
status_stopped = "stopped"

abbrev pub status_running : String
status_running = "running"

abbrev pub status_failed : String
status_failed = "failed"

-- type RestartPolicy string
abbrev pub restart_always : String
restart_always = "always"

abbrev pub restart_on_failure : String
restart_on_failure = "on-failure"

abbrev pub restart_never : String
restart_never = "no"

abbrev pub default_graceful_timeout : ℤ
default_graceful_timeout = pos (5 * second)

abbrev pub default_max_restarts : ℤ
default_max_restarts = pos 5

abbrev pub default_restart_window : ℤ
default_restart_window = pos (60 * second)

pub record Service : Type 0 where
  pub id : String
  pub project_id : String
  pub kind : String
  pub name : String
  pub command : String
  pub args : List String
  pub cwd : String
  pub env : List (String × String)
  pub autostart : Bool
  pub depends_on : List String
  pub restart_policy : String
  pub graceful_timeout : ℤ
  pub max_restarts : ℤ
  pub restart_window : ℤ
  pub pid : ℕ
  pub status : String
  pub started_at : Option ℕ
  pub exited_at : Option ℕ
  pub exit_code : Option ℤ
  pub log_file : String

pub record StartRequest : Type 0 where
  pub id : String
  pub name : String
  pub command : String
  pub args : List String
  pub cwd : String
  pub env : List (String × String)
  pub project_id : String
  pub kind : String
  pub autostart : Bool
  pub depends_on : List String
  pub restart_policy : String
  pub graceful_timeout : ℤ
  pub max_restarts : ℤ
  pub restart_window : ℤ

unfoldable pub default_string : String → String → String
default_string v fallback = if str_eq v "" then fallback else v

unfoldable pub default_policy : String → String
default_policy v = if str_eq v "" then restart_never else v

unfoldable pub default_duration : ℤ → ℤ → ℤ
unfolding is_positive
default_duration v fallback = if is_positive v then v else fallback

unfoldable pub default_int : ℤ → ℤ → ℤ
unfolding is_positive
default_int v fallback = if is_positive v then v else fallback

unfoldable pub to_service : StartRequest → Service
unfolding default_string default_policy default_duration default_int
to_service r = record {
  id = r.id;
  project_id = r.project_id;
  kind = default_string r.kind "native";
  name = r.name;
  command = r.command;
  args = r.args;
  cwd = r.cwd;
  env = r.env;
  autostart = r.autostart;
  depends_on = r.depends_on;
  restart_policy = default_policy r.restart_policy;
  graceful_timeout = default_duration r.graceful_timeout default_graceful_timeout;
  max_restarts = default_int r.max_restarts default_max_restarts;
  restart_window = default_duration r.restart_window default_restart_window;
  pid = 0;
  status = status_stopped;
  started_at = none;
  exited_at = none;
  exit_code = none;
  log_file = "";
}

unfoldable pub to_record : Service → ServiceRecord
unfolding quotient
to_record s = record {
  id = s.id;
  project_id = s.project_id;
  kind = s.kind;
  name = s.name;
  command = s.command;
  args = s.args;
  cwd = s.cwd;
  env = s.env;
  autostart = s.autostart;
  depends_on = s.depends_on;
  restart_policy = s.restart_policy;
  graceful_timeout_seconds = quotient s.graceful_timeout second;
  max_restarts = s.max_restarts;
  restart_window_seconds = quotient s.restart_window second;
  status = s.status;
  pid = s.pid;
  log_file = s.log_file;
  started_at = s.started_at;
  exited_at = s.exited_at;
  exit_code = s.exit_code;
}

unfoldable pub from_record : ServiceRecord → Service
unfolding default_string default_policy default_duration default_int times
from_record r = record {
  id = r.id;
  project_id = r.project_id;
  kind = r.kind;
  name = r.name;
  command = r.command;
  args = r.args;
  cwd = r.cwd;
  env = r.env;
  autostart = r.autostart;
  depends_on = r.depends_on;
  restart_policy = default_policy r.restart_policy;
  graceful_timeout =
      default_duration (times r.graceful_timeout_seconds second) default_graceful_timeout;
  max_restarts = default_int r.max_restarts default_max_restarts;
  restart_window = default_duration (times r.restart_window_seconds second) default_restart_window;
  pid = r.pid;
  status = default_string r.status status_stopped;
  started_at = r.started_at;
  exited_at = r.exited_at;
  exit_code = r.exit_code;
  log_file = r.log_file;
}
