-- ===== src/Pipeline/Engine.antt =====
-- internal/pipeline/engine.go. `Host` is what a step reaches outside this file: the shell, the
-- servers and their sessions, the deployment engine, HTTP and the clock, over a state `W`.
use alresia_voltpanel.Prelude.{
  ℕ, ◌-◌, String, Bool, true, false, ◌||◌, Option, none, some, List, [], ◌∷◌, str_eq, concat,
  if◌then◌else◌, Outcome, failed, done, show_int,
}
use alresia_voltpanel.Prelude.Int.{ℤ, pos, is_zero, int_eq}
use alresia_voltpanel.Pipeline.{Step, SshStep, HealthCheckStep, kind}

-- A session is named by its server's id. `now` is in milliseconds.
pub record Host (W : Type 0) : Type 0 where
  pub now : W → ℕ
  pub shell : W → String → W × String × Option String
  pub find_server : W → String → Option String
  pub connect : W → String → W × Option String
  pub exec : W → String → String → W × String × String × Option String
  pub close : W → String → W
  pub has_deploy_engine : Bool
  pub deploy : W → String → W × String × Option String
  pub bad_request : String → Option String
  pub get_status : W → String → W × Outcome String ℕ

pub data StepError : Type 0 where
  unknown_kind : StepError
  ssh_incomplete : StepError
  no_deploy_engine : StepError
  no_url : StepError
  connect_failed : String → StepError
  unexpected_status : ℕ → ℤ → StepError
  host_error : String → StepError

pub message : StepError → String
message unknown_kind = "unknown step kind"
message ssh_incomplete = "ssh step requires serverId and command"
message no_deploy_engine = "deploy step requires a configured DeployEngine"
message no_url = "healthcheck step requires a url"
message (connect_failed e) = concat "connect: " e
message (unexpected_status got want) =
    concat "unexpected status " (concat (show_int (pos got)) (concat ", want " (show_int want)))
message (host_error e) = e

pub record StepResult : Type 0 where
  pub name : String
  pub kind : String
  pub is_success : Bool
  pub output : String
  pub duration_ms : ℕ

-- what `Run` returns when a step fails: its name and error
pub record RunError : Type 0 where
  pub step : String
  pub cause : StepError

unfoldable pub host_failure : Option String → Option StepError
host_failure none = none
host_failure (some e) = some (host_error e)

-- the part of `runHealthCheck` after the answer
unfoldable pub judge_status :
    {W : Type 0} → String → ℤ → W × Outcome String ℕ → W × String × Option StepError
judge_status url expected (w, failed e) = (w, "", some (host_error e))
judge_status url expected (w, done status) =
    let out = concat "GET " (
      concat url (
        concat " -> HTTP " (
          concat (show_int (pos status))
            (concat " (expected " (concat (show_int expected) ")"))))) in
    (
      w,
      out,
      if int_eq (pos status) expected then none else some (unexpected_status status expected),
    )

module _ {W : Type 0} (host : Host W) where
  unfoldable pub run_local : W → String → W × String × Option StepError
  unfolding host_failure
  run_local w command = let (w', out, e) = host.shell w command in (w', out, host_failure e)

  -- once the session is open
  unfoldable pub exec_ssh : W → SshStep → W × String × Option StepError
  unfolding host_failure
  exec_ssh w s =
      let (w', stdout, stderr, e) = host.exec w s.server_id s.command in
      (host.close w' s.server_id, concat stdout stderr, host_failure e)

  unfoldable pub connect_ssh : W → SshStep → W × String × Option StepError
  unfolding exec_ssh
  connect_ssh w s =
      let (w', e) = host.connect w s.server_id in
      elim e [ some e' ↦ (w', "", some (connect_failed e')) | none ↦ exec_ssh w' s ]

  unfoldable pub run_ssh : W → Option SshStep → W × String × Option StepError
  unfolding connect_ssh
  run_ssh w none = (w, "", some ssh_incomplete)
  run_ssh w (some s) =
      let found : W × String × Option StepError = elim (host.find_server w s.server_id) [
        | some e ↦ (w, "", some (host_error e))
        | none ↦ connect_ssh w s
      ] in
      if str_eq s.server_id "" || str_eq s.command "" then (w, "", some ssh_incomplete) else found

  unfoldable pub run_deploy : W → String → W × String × Option StepError
  unfolding host_failure
  run_deploy w target =
      let (w', log, e) = host.deploy w target in
      if host.has_deploy_engine then (w', log, host_failure e) else (w, "", some no_deploy_engine)

  unfoldable pub run_health_check : W → Option HealthCheckStep → W × String × Option StepError
  unfolding judge_status
  run_health_check w none = (w, "", some no_url)
  run_health_check w (some h) =
      let expected : ℤ = if is_zero h.expected_status then pos 200 else h.expected_status in
      let asked : W × String × Option StepError = elim (host.bad_request h.url) [
        | some e ↦ (w, "", some (host_error e))
        | none ↦ judge_status h.url expected (host.get_status w h.url)
      ] in
      if str_eq h.url "" then (w, "", some no_url) else asked

  unfoldable pub run_kind : W → Step → String → W × String × Option StepError
  unfolding run_local run_ssh run_deploy run_health_check
  run_kind w s k =
      if str_eq k "run"
      then run_local w s.run
      else if str_eq k "ssh"
      then run_ssh w s.ssh
      else if str_eq k "deploy"
      then run_deploy w s.deploy
      else if str_eq k "healthcheck"
      then run_health_check w s.health_check
      else (w, "", some unknown_kind)

  unfoldable pub run_step : W → Step → W × String × Option StepError
  run_step w s = run_kind w s (kind s)

  -- the entry of a step that began at `w` and ended at `w'`
  unfoldable pub result_of : W → Step → W → String → Option StepError → StepResult
  result_of w s w' out none = record {
    name = s.name;
    kind = kind s;
    is_success = true;
    output = out;
    duration_ms = host.now w' - host.now w;
  }
  result_of w s w' out (some e) = record {
    name = s.name;
    kind = kind s;
    is_success = false;
    output = concat out (concat "\nERROR: " (message e));
    duration_ms = host.now w' - host.now w;
  }

  -- one round of the loop of `Run`, and whether it goes on
  unfoldable pub run_one : W → Step → W × StepResult × Option RunError
  run_one w s =
      let (w', out, e) = run_step w s in
      let failure : Option RunError = elim e [
        | none ↦ none
        | some cause ↦ some (record { step = s.name; cause = cause })
      ] in
      (w', result_of w s w' out e, failure)

  unfoldable pub run : W → List Step → W × List StepResult × Option RunError
  run w [] = (w, [], none)
  run w (s ∷ ss) =
      let (w', r, e) = run_one w s in
      elim e [
        | some failure ↦ (w', r ∷ [], some failure)
        | none ↦ (let (w'', rs, e') = run w' ss in (w'', r ∷ rs, e'))
      ]
