-- ===== src/Pipeline/Order.antt =====
-- The loop of `Run` in internal/pipeline/engine.go: order, and the stop at the first failure.
use alresia_voltpanel.Prelude.{
  ◌≡◌, refl, ap, subst, String, true, false, Option, none, some, List, [], ◌∷◌, concat,
  Option-cases, inl, inr,
}
use alresia_voltpanel.Pipeline.{Step, kind}
use alresia_voltpanel.Pipeline.Engine.{
  Host, StepResult, RunError, StepError, message, run_step, run_one, run, result_of,
}

-- The entry of a step that ended with that error, or without one.
pub record Entry (s : Step) (out : String) (e : Option StepError) (r : StepResult) : Type 0 where
  pub name : r.name ≡ s.name
  pub kind_of : r.kind ≡ kind s
  pub is_success : r.is_success ≡ (elim e [ none ↦ true | some c ↦ false ])
  pub output :
      r.output ≡ (elim e [ none ↦ out | some c ↦ concat out (concat "\nERROR: " (message c)) ])

-- How the results follow the steps from the state `w`: each step runs in the state that the one
-- before it left, up to the end or to the first that ends with an error, which `Run` returns with the
-- name of the step.
pub data Reports {W : Type 0} (host : Host W)
    : W → List Step → W → List StepResult → Option RunError → Type 0 where
  complete : (w : W) → Reports host w [] w [] none
  success :
      (w w' : W) (s : Step) (r : StepResult) (ss : List Step) (rs : List StepResult)
      (e : Option RunError)
      → (run_step host w s).2 ≡ none
      → Entry s (run_step host w s).1 none r
      → Reports host (run_step host w s).0 ss w' rs e
      → Reports host w (s ∷ ss) w' (r ∷ rs) e
  failure :
      (w : W) (s : Step) (r : StepResult) (ss : List Step) (c : StepError)
      → (run_step host w s).2 ≡ some c
      → Entry s (run_step host w s).1 (some c) r
      → Reports host w
          (s ∷ ss)
          (run_step host w s).0
          (r ∷ [])
          (some (record { step = s.name; cause = c }))

module _ {W : Type 0} (host : Host W) where
  result_of-Entry :
      (w : W) (s : Step) (w' : W) (out : String) (e : Option StepError)
      → Entry s out e (result_of host w s w' out e)
  unfolding result_of
  result_of-Entry w s w' out none = record {
    name = refl;
    kind_of = refl;
    is_success = refl;
    output = refl;
  }
  result_of-Entry w s w' out (some c) = record {
    name = refl;
    kind_of = refl;
    is_success = refl;
    output = refl;
  }

  module _ (w : W) (s : Step) (e : Option StepError) (ends : (run_step host w s).2 ≡ e) where
    run_one-Entry : Entry s (run_step host w s).1 e (run_one host w s).1
    unfolding run_one
    run_one-Entry =
        subst (λ o. Entry s (run_step host w s).1 o (run_one host w s).1) ends
          (result_of-Entry w s (run_step host w s).0 (run_step host w s).1 (run_step host w s).2)

    run_one-error :
        (run_one host w s).2
        ≡ (elim e [ none ↦ none | some c ↦ some (record { step = s.name; cause = c }) ])
    unfolding run_one
    run_one-error =
        ap
          (λ (o : Option StepError). elim o as (λ _. Option RunError) [
            | none ↦ none
            | some c ↦ some (record { step = s.name; cause = c })
          ])
          ends

  -- On any host and from any state, `Run` runs the steps in order, each in the state that the
  -- one before it left, and returns one result for each: as long as they end without an error,
  -- a success with the output of the step; at the first that ends with an error, a failure with
  -- the output and the error, after which no further step runs and `Run` returns that error
  -- under the name of the step.
  pub run-Reports :
      (w : W) (ss : List Step) → let (w', rs, e) = run host w ss in Reports host w ss w' rs e
  unfolding run run_one
  run-Reports w [] = complete w
  run-Reports w (s ∷ ss) = elim (Option-cases (run_step host w s).2) [
    | inl e ↦
        rw (run_one-error w s none e, run)
          (success w _ s (run_one host w s).1 ss _ _ e (run_one-Entry w s none e)
            (run-Reports (run_step host w s).0 ss))
    | inr (c, e) ↦
        rw (run_one-error w s (some c) e, run)
          (failure w s (run_one host w s).1 ss c e (run_one-Entry w s (some c) e))
  ]
