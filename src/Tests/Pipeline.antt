-- ===== src/Tests/Pipeline.antt =====
-- internal/pipeline at two steps on a host whose state counts the commands it ran.
use alresia_voltpanel.Prelude.{
  ℕ, suc, ◌≡◌, ◌≢◌, ◌↔◌, refl, String, false, none, some, [], ◌∷◌, str_eq, if◌then◌else◌, Outcome,
  done,
}
use alresia_voltpanel.Pipeline.{Step, Definition, kind, check_steps, check_definition, parse}
use alresia_voltpanel.Pipeline.Engine.{
  Host, StepError, unknown_kind, host_error, run, run_one, run_step, run_kind, run_local,
  host_failure, result_of,
}
use alresia_voltpanel.Pipeline.Order.{Reports, run-Reports}
use alresia_voltpanel.Pipeline.Validation.{AllRunnable, parse_iff, parse-run_known}

abbrev machine : Host ℕ
machine = record {
  now = λ w. w;
  shell =
      λ w command. (suc w, "out", if str_eq command "false" then some "exit status 1" else none);
  find_server = λ w id. none;
  connect = λ w id. (suc w, none);
  exec = λ w id command. (suc w, "", "", none);
  close = λ w id. w;
  has_deploy_engine = false;
  deploy = λ w target. (w, "", none);
  bad_request = λ url. none;
  get_status = λ w url. (w, done 200);
}

abbrev shell_step : String → String → Step
shell_step name command = record {
  name = name;
  run = command;
  ssh = none;
  deploy = "";
  health_check = none;
}

abbrev build : Step
build = shell_step "build" "true"

abbrev unit_test : Step
unit_test = shell_step "test" "false"

abbrev ship : Step
ship = shell_step "ship" "true"

abbrev two_steps : Definition
two_steps = record { steps = build ∷ unit_test ∷ [] }

abbrev decode : String → Outcome String Definition
decode text = done two_steps

run-Reports_example :
    let (w, rs, e) = run machine 0 (build ∷ unit_test ∷ ship ∷ []) in
    Reports machine 0 (build ∷ unit_test ∷ ship ∷ []) w rs e
run-Reports_example = run-Reports machine 0 (build ∷ unit_test ∷ ship ∷ [])

parse_iff_example : (parse decode "steps: ..." ≡ done two_steps) ↔ (
    (decode "steps: ..." ≡ done two_steps) × (two_steps.steps ≢ []) × AllRunnable two_steps.steps)
parse_iff_example = parse_iff decode "steps: ..." two_steps

parsed : parse decode "steps: ..." ≡ done two_steps
unfolding parse check_definition check_steps kind
parsed = refl

fails :
    (run machine 0 two_steps.steps).2
    ≡ some (record { step = "test"; cause = host_error "exit status 1" })
unfolding run run_one run_step run_kind run_local host_failure result_of kind
fails = refl

parse-run_known_example : ◌≢◌ {A = StepError} (host_error "exit status 1") unknown_kind
parse-run_known_example =
    parse-run_known decode "steps: ..." two_steps machine 0
      (record { step = "test"; cause = host_error "exit status 1" }) parsed fails
