-- ===== src/Pipeline.antt =====
-- internal/pipeline: definition.go here, engine.go in Engine. The YAML decoder is an argument.
pub mod Engine
pub mod Validation
pub mod Order
use alresia_voltpanel.Prelude.{
  ℕ, suc, String, Bool, true, false, Option, none, some, List, [], ◌∷◌, str_eq, if◌then◌else◌,
  Outcome, failed, done,
}
use alresia_voltpanel.Prelude.Int.{ℤ}

pub record SshStep : Type 0 where
  pub server_id : String
  pub command : String

pub record HealthCheckStep : Type 0 where
  pub url : String
  pub expected_status : ℤ

pub record Step : Type 0 where
  pub name : String
  pub run : String
  pub ssh : Option SshStep
  pub deploy : String
  pub health_check : Option HealthCheckStep

-- the cases of `Kind` after those on `Run` and `SSH`
abbrev kind_after_ssh : String → Option HealthCheckStep → String
kind_after_ssh deploy h =
    let last : String = elim h [ some _ ↦ "healthcheck" | none ↦ "" ] in
    if str_eq deploy "" then last else "deploy"

unfoldable pub kind : Step → String
kind s =
    let others : String = elim s.ssh [
      | some _ ↦ "ssh"
      | none ↦ kind_after_ssh s.deploy s.health_check
    ] in
    if str_eq s.run "" then others else "run"

pub record Definition : Type 0 where
  pub steps : List Step

pub data ParseError : Type 0 where
  bad_yaml : String → ParseError
  no_steps : ParseError
  no_name : ℕ → ParseError
  no_kind : String → ParseError

-- the loop of `Parse`, from step `i` on
unfoldable pub check_steps : ℕ → List Step → Option ParseError
check_steps i [] = none
check_steps i (s ∷ ss) =
    let rest = check_steps (suc i) ss in
    if str_eq s.name ""
    then some (no_name i)
    else if str_eq (kind s) ""
    then some (no_kind s.name)
    else rest

unfoldable pub check_definition : Definition → Outcome ParseError Definition
check_definition def = elim def.steps [
  | [] ↦ failed no_steps
  | s ∷ ss ↦ elim (check_steps 0 (s ∷ ss)) [ some e ↦ failed e | none ↦ done def ]
]

unfoldable pub parse : (String → Outcome String Definition) → String → Outcome ParseError Definition
parse unmarshal text = elim (unmarshal text) [
  | failed e ↦ failed (bad_yaml e)
  | done def ↦ check_definition def
]
