-- ===== src/Deployment/Rollbacks.antt =====
-- `Rollback` of internal/domain/deployment/engine.go on a deployment that is itself a rollback.
use alresia_voltpanel.Prelude.{
  ℕ, ◌≡◌, ◌∙◌, refl, String, Bool, true, false, Option, none, some, str_eq, arith, Bool-cases,
  Option-cases, Outcome-cases, List-cases, inl, inr, str_eq_refl,
}
use alresia_voltpanel.Prelude.Table.{find_by}
use alresia_voltpanel.Deployment.{
  Target, Deployment, Tables, TableError, insert_deployment, Ending, finish_deployment,
  get_deployment, targets_of_project, deployment_id, ended,
}
use alresia_voltpanel.Deployment.Engine.{Host, Cause, Ended, fine, because, panicked, Progress}
use alresia_voltpanel.Deployment.Calls.{
  Later, report, crashed, table_failed, no_rollback_ref, recorded, new_deployment, record_run,
  conclude, run_rollback, rollback_with, rollback, find_server,
}
use alresia_voltpanel.Deployment.Rows.{Inserted-find_by, get_found, finished}

-- The row of a run that has nothing to go back to.
abbrev IsFinal : Tables → String → Type 0
IsFinal db id =
    (db.is_up ≡ true)
    × ((d : Deployment) × (find_by deployment_id id db.deployments ≡ some d)
        × (d.code_rollback_ref ≡ ""))

ended_ref : (e : Ending) (d : Deployment) → (ended e d).code_rollback_ref ≡ e.code_rollback_ref
unfolding ended
ended_ref e d = refl

no_answer :
    {d : Deployment} {cause : Option Cause} {x : TableError} → table_failed x ≡ recorded d cause → ⊥
no_answer h = cc

no_crash : {d : Deployment} {cause : Option Cause} → crashed ≡ recorded d cause → ⊥
no_crash h = cc

module _ {W : Type 0} (host : Host W) where
  rollback-IsFinal :
      (db : Tables) (w : W) (later : Later) (id v : String)
      → IsFinal db v
      → rollback host db w later id v ≡ (db, w, no_rollback_ref v)
  unfolding rollback
  rollback-IsFinal db w later id v (up, (d, found, no_ref)) =
      rw (get_found db v d up found, rollback) (rw (no_ref) refl)

  record_run-IsFinal :
      (db : Tables) (id : String) (d d' : Deployment) (start : ℕ) (sha : String)
      (finishes reads : Bool) (p : Progress W) (cause cause' : Option Cause)
      → find_by deployment_id id db.deployments ≡ some d
      → let o =
          record_run host db id start sha ""
            (record { finishes = finishes; reads = reads })
            p
            cause in
        o.2 ≡ recorded d' cause' → IsFinal o.0 id
  unfolding record_run finish_deployment report get_deployment
  record_run-IsFinal db id d d' start sha true true p cause cause' found h =
      (refl, (ended _ d, finished db id d found _ true, ended_ref _ d))
  record_run-IsFinal db id d d' start sha true false p cause cause' found h = absurd (no_answer h)
  record_run-IsFinal db id d d' start sha false reads p cause cause' found h = absurd (no_answer h)

  conclude-IsFinal :
      (db : Tables) (id : String) (d d' : Deployment) (start : ℕ) (sha : String) (later : Later)
      (p : Progress W) (how : Ended) (cause : Option Cause)
      → find_by deployment_id id db.deployments ≡ some d
      → (conclude host db id start sha "" later p how).2 ≡ recorded d' cause
      → IsFinal (conclude host db id start sha "" later p how).0 id
  unfolding conclude
  conclude-IsFinal db id d d' start sha later p fine cause found =
      record_run-IsFinal db id d d' start sha later.finishes later.reads p none cause found
  conclude-IsFinal db id d d' start sha later p (because c) cause found =
      record_run-IsFinal db id d d' start sha later.finishes later.reads p (some c) cause found
  conclude-IsFinal db id d d' start sha later p panicked cause found = λ h. absurd (no_crash h)

  run_rollback-IsFinal :
      (db : Tables) (w : W) (later : Later) (id : String) (prev : Deployment) (target : Target)
      (d' : Deployment) (cause : Option Cause)
      → (insert_deployment db (new_deployment id (host.now w) prev.project_id target)).1 ≡ none
      → (run_rollback host db w later id prev target).2 ≡ recorded d' cause
      → IsFinal (run_rollback host db w later id prev target).0 id
  unfolding run_rollback new_deployment
  run_rollback-IsFinal db w later id prev target d' cause h =
      let d = new_deployment id (host.now w) prev.project_id target in
      let (up, shown) = Inserted-find_by db d h in
      rw (h, run_rollback)
        (conclude-IsFinal (insert_deployment db d).0 id d d' _ _ later _ _ cause
          (shown id ∙ ground (arith, str_eq_refl id)))

  run_rollback-recorded :
      (db : Tables) (w : W) (later : Later) (id : String) (prev : Deployment) (target : Target)
      (d : Deployment) (cause : Option Cause)
      → (run_rollback host db w later id prev target).2 ≡ recorded d cause
      → IsFinal (run_rollback host db w later id prev target).0 id
  unfolding run_rollback
  run_rollback-recorded db w later id prev target d cause h =
      elim (Option-cases
        (insert_deployment db (new_deployment id (host.now w) prev.project_id target)).1) [
          | inl e ↦ run_rollback-IsFinal db w later id prev target d cause e h
          | inr (x, e) ↦ ground (arith, h, e)
        ]

  rollback_with-recorded :
      (db : Tables) (w : W) (later : Later) (id : String) (prev : Deployment) (target : Target)
      (d : Deployment) (cause : Option Cause)
      → (rollback_with host db w later id prev target).2 ≡ recorded d cause
      → IsFinal (rollback_with host db w later id prev target).0 id
  unfolding rollback_with
  rollback_with-recorded db w later id prev target d cause h =
      elim (Option-cases (find_server db target.server_id)) [
        | inl e ↦
            rw (e, rollback_with)
              (run_rollback-recorded db w later id prev target d cause (ground (arith, h, e)))
        | inr (x, e) ↦ ground (arith, h, e)
      ]

  rollback-recorded :
      (db : Tables) (w : W) (later : Later) (id v : String) (d : Deployment) (cause : Option Cause)
      → (rollback host db w later id v).2 ≡ recorded d cause
      → IsFinal (rollback host db w later id v).0 id
  unfolding rollback
  rollback-recorded db w later id v d cause h = elim (Outcome-cases (get_deployment db v)) [
    | inl (e, f) ↦ ground (arith, h, f)
    | inr (prev, f) ↦ elim (Bool-cases (str_eq prev.code_rollback_ref "")) [
      | inl g ↦ ground (arith, h, f, g)
      | inr g ↦ elim (Outcome-cases (targets_of_project db prev.project_id)) [
        | inl (e, k) ↦ ground (arith, h, f, g, k)
        | inr (targets, k) ↦ elim (List-cases targets) [
          | inl n ↦ ground (arith, h, f, g, k, n)
          | inr (target, others, n) ↦
              rw (f, rollback)
                (rw g (
                  rw (k, rollback)
                    (rw n (
                      rollback_with-recorded db w later id prev target d cause
                        (ground (arith, h, f, g, k, n))))))
        ]
      ]
    ]
  ]

  -- A rollback that has run cannot be rolled back: its own row holds no commit to go back to,
  -- so that a further `Rollback` on it is refused, whatever the state of the host.
  pub rollback-rollback :
      (db : Tables) (w : W) (later : Later) (id v : String) (d : Deployment) (cause : Option Cause)
      → (rollback host db w later id v).2 ≡ recorded d cause
      → let db' = (rollback host db w later id v).0 in
        (w' : W) (later' : Later) (id' : String)
        → rollback host db' w' later' id' id ≡ (db', w', no_rollback_ref id)
  rollback-rollback db w later id v d cause h w' later' id' =
      rollback-IsFinal (rollback host db w later id v).0 w' later' id' id
        (rollback-recorded db w later id v d cause h)
