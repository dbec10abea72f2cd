-- ===== src/Pipeline/Validation.antt =====
-- What `Parse` of internal/pipeline/definition.go lets through, and what `Run` may then rely on.
use alresia_voltpanel.Prelude.{
  ℕ, suc, ◌≡◌, ◌≢◌, ◌↔◌, ◌⊎◌, refl, String, Bool, true, false, not, ◌||◌, str_eq, Option, none,
  some, List, [], ◌∷◌, arith, subst, Bool-cases, Option-cases, Outcome, failed, done, Outcome-cases,
  inl, inr, List-cases, eq_iff,
}
use alresia_voltpanel.Prelude.Int.{ℤ}
use alresia_voltpanel.Pipeline.{
  Step, SshStep, HealthCheckStep, Definition, kind, check_steps, check_definition, parse,
}
use alresia_voltpanel.Pipeline.Engine.{
  Host, StepError, unknown_kind, RunError, run_step, run_one, run, run_kind, run_local, run_ssh,
  run_deploy, run_health_check, exec_ssh, connect_ssh, judge_status, host_failure,
}

-- A step with at least one of the four kinds of work.
abbrev pub has_work : Step → Bool
has_work s =
    not (str_eq s.run "")
    || (elim s.ssh [ none ↦ false | some _ ↦ true ])
    || not (str_eq s.deploy "")
    || (elim s.health_check [ none ↦ false | some _ ↦ true ])

work_of_fields :
    (name run deploy : String) (ssh : Option SshStep) (check : Option HealthCheckStep)
    → let s : Step = record {
      name = name;
      run = run;
      ssh = ssh;
      deploy = deploy;
      health_check = check;
    } in
      str_eq (kind s) "" ≡ not (has_work s)
unfolding kind
work_of_fields name run deploy none none = elim (Bool-cases (str_eq run "")) [
  | inr e ↦ rw e refl
  | inl e ↦ elim (Bool-cases (str_eq deploy "")) [ inl f ↦ rw (e, f) refl | inr f ↦ rw (e, f) refl ]
]
work_of_fields name run deploy none (some h) = elim (Bool-cases (str_eq run "")) [
  | inr e ↦ rw e refl
  | inl e ↦ elim (Bool-cases (str_eq deploy "")) [ inl f ↦ rw (e, f) refl | inr f ↦ rw (e, f) refl ]
]
work_of_fields name run deploy (some x) check = elim (Bool-cases (str_eq run "")) [
  | inl e ↦ rw e refl
  | inr e ↦ rw e refl
]

kind-has_work : (s : Step) → str_eq (kind s) "" ≡ not (has_work s)
kind-has_work s = work_of_fields s.name s.run s.deploy s.ssh s.health_check

-- Every step has a name and one of the four kinds of work.
abbrev pub AllRunnable : List Step → Type 0
AllRunnable [] = Unit {0}
AllRunnable (s ∷ ss) = (s.name ≢ "") × (has_work s ≡ true) × AllRunnable ss

check_steps-none : (i : ℕ) (ss : List Step) → AllRunnable ss → check_steps i ss ≡ none
unfolding check_steps
check_steps-none i [] h = refl
check_steps-none i (s ∷ ss) h =
    ground (arith, check_steps-none (suc i) ss h.2, eq_iff s.name "", kind-has_work s, h.0, h.1)

check_steps-AllRunnable : (i : ℕ) (ss : List Step) → check_steps i ss ≡ none → AllRunnable ss
unfolding check_steps
check_steps-AllRunnable i [] h = tt
check_steps-AllRunnable i (s ∷ ss) h = (
  ground (arith, eq_iff s.name ""),
  ground (arith, kind-has_work s),
  check_steps-AllRunnable (suc i) ss (ground arith),
)

check_definition-runnable :
    (d : Definition) → d.steps ≢ [] → AllRunnable d.steps → check_definition d ≡ done d
unfolding check_definition
check_definition-runnable d h a = elim (List-cases d.steps) [
  | inl e ↦ ground (arith, e)
  | inr (s, ss, e) ↦ ground (arith, e, check_steps-none 0 d.steps a)
]

check_definition-done :
    (d def : Definition)
    → check_definition d ≡ done def
    → (d ≡ def) × (d.steps ≢ []) × AllRunnable d.steps
unfolding check_definition
check_definition-done d def h = elim (List-cases d.steps) [
  | inl e ↦ ground (arith, e)
  | inr (s, ss, e) ↦ elim (Option-cases (check_steps 0 (s ∷ ss))) [
    | inl f ↦ (ground (arith, e, f), ground (arith, e), rw e (check_steps-AllRunnable 0 (s ∷ ss) f))
    | inr (x, f) ↦ ground (arith, e, f)
  ]
]

-- `Parse` returns exactly the decoded definitions that have steps, each with a name and at least
-- one of the four kinds of work.
pub parse_iff :
    (unmarshal : String → Outcome String Definition) (text : String) (def : Definition)
    → (parse unmarshal text ≡ done def)
      ↔ ((unmarshal text ≡ done def) × (def.steps ≢ []) × AllRunnable def.steps)
unfolding parse
parse_iff unmarshal text def = (
  λ h. elim (Outcome-cases (unmarshal text)) [
    | inl (e, f) ↦ ground (arith, f)
    | inr (d, f) ↦
        (let (same, some_steps, all) = check_definition-done d def (ground (arith, f)) in
          (
            ground (arith, f, same),
            subst (λ x. x.steps ≢ []) same some_steps,
            subst (λ x. AllRunnable x.steps) same all,
          ))
  ],
  λ h. ground (arith, h.0, check_definition-runnable def h.1 h.2),
)

abbrev Known : {W : Type 0} → W × String × Option StepError → Type 0
Known o = o.2 ≢ some unknown_kind

host_failure-Known : (o : Option String) → host_failure o ≢ some unknown_kind
unfolding host_failure
host_failure-Known none h = cc
host_failure-Known (some e) h = cc

judge_status-Known :
    {W : Type 0} (url : String) (expected : ℤ) (o : W × Outcome String ℕ)
    → Known (judge_status url expected o)
unfolding judge_status
judge_status-Known url expected (w, failed e) = λ h. cc
judge_status-Known url expected (w, done n) = λ h. ground arith

-- Whatever the host answers, each kind of step reports an error of its own.
module _ {W : Type 0} (host : Host W) (w : W) where
  run_local-Known : (c : String) → Known (run_local host w c)
  unfolding run_local
  run_local-Known c = host_failure-Known (host.shell w c).2

  connect_ssh-Known : (s : SshStep) → Known (connect_ssh host w s)
  unfolding connect_ssh exec_ssh
  connect_ssh-Known s = elim (Option-cases (host.connect w s.server_id).1) [
    | inl e ↦ rw (e, connect_ssh) (host_failure-Known _)
    | inr (x, e) ↦ rw (e, connect_ssh) (λ h. cc)
  ]

  run_ssh-Known : (o : Option SshStep) → Known (run_ssh host w o)
  unfolding run_ssh
  run_ssh-Known none = λ h. cc
  run_ssh-Known (some s) = λ h. elim (Option-cases (host.find_server w s.server_id)) [
    | inl e ↦ ground (arith, e, connect_ssh-Known s)
    | inr (x, e) ↦ ground (arith, e)
  ]

  run_deploy-Known : (target : String) → Known (run_deploy host w target)
  unfolding run_deploy
  run_deploy-Known target = λ h. ground (arith, host_failure-Known (host.deploy w target).2)

  run_health_check-Known : (o : Option HealthCheckStep) → Known (run_health_check host w o)
  unfolding run_health_check
  run_health_check-Known none = λ h. cc
  run_health_check-Known (some s) = λ h. elim (Option-cases (host.bad_request s.url)) [
    | inl e ↦ ground (arith, e, judge_status-Known s.url)
    | inr (x, e) ↦ ground (arith, e)
  ]

  run_kind-Known :
      (s : Step) (k : String)
      → (k ≡ "run") ⊎ (k ≡ "ssh") ⊎ (k ≡ "deploy") ⊎ (k ≡ "healthcheck")
      → Known (run_kind host w s k)
  unfolding run_kind
  run_kind-Known s k (inl e) = rw e (run_local-Known s.run)
  run_kind-Known s k (inr (inl e)) = rw e (run_ssh-Known s.ssh)
  run_kind-Known s k (inr (inr (inl e))) = rw e (run_deploy-Known s.deploy)
  run_kind-Known s k (inr (inr (inr e))) = rw e (run_health_check-Known s.health_check)

kind-cases :
    (s : Step)
    → has_work s ≡ true
    → (kind s ≡ "run") ⊎ (kind s ≡ "ssh") ⊎ (kind s ≡ "deploy") ⊎ (kind s ≡ "healthcheck")
unfolding kind
kind-cases s h = elim (Option-cases s.ssh) [
  | inl e ↦ elim (Option-cases s.health_check) [
    | inl f ↦ ground (arith, e, f)
    | inr (x, f) ↦ ground (arith, e, f)
  ]
  | inr (x, e) ↦ ground (arith, e)
]

run_one-Known :
    {W : Type 0} (host : Host W) (w : W) (s : Step) (f : RunError)
    → has_work s ≡ true
    → (run_one host w s).2 ≡ some f
    → f.cause ≢ unknown_kind
unfolding run_one run_step
run_one-Known host w s f h e c = elim (Option-cases (run_step host w s).2) [
  | inl g ↦ ground (arith, g)
  | inr (x, g) ↦ run_kind-Known host w s (kind s) (kind-cases s h) (ground (arith, g))
]

run-Known :
    {W : Type 0} (host : Host W) (w : W) (ss : List Step) (f : RunError)
    → AllRunnable ss
    → (run host w ss).2 ≡ some f
    → f.cause ≢ unknown_kind
unfolding run
run-Known host w [] f a e = cc
run-Known host w (s ∷ ss) f a e = elim (Option-cases (run_one host w s).2) [
  | inl g ↦ run-Known host (run_one host w s).0 ss f a.2 (ground (arith, g))
  | inr (x, g) ↦ run_one-Known host w s f a.1 (ground (arith, g))
]

-- When `Parse` accepts a pipeline, no run of it, on any host, fails for want of a kind of step.
pub parse-run_known :
    {W : Type 0} (unmarshal : String → Outcome String Definition) (text : String) (def : Definition)
    (host : Host W) (w : W) (f : RunError)
    → parse unmarshal text ≡ done def
    → (run host w def.steps).2 ≡ some f
    → f.cause ≢ unknown_kind
parse-run_known unmarshal text def host w f h e =
    run-Known host w def.steps f ((parse_iff unmarshal text def).0 h).2 e
