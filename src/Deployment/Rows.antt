-- ===== src/Deployment/Rows.antt =====
-- The row of a deployment in the table of internal/domain/deployment/deployment.go, as a run of
-- engine.go begins it and leaves it.
use alresia_voltpanel.Prelude.{
  ◌≡◌, ◌⊎◌, ◌∙◌, refl, String, Bool, true, false, not, ◌||◌, Option, none, some, str_eq, eq_iff,
  elem, arith, Option-cases, inl, inr, if◌then◌else◌, on_if, done, str_eq_refl,
}
use alresia_voltpanel.Prelude.Table.{
  find_by, has_key, change, find_by-append, find_by-change, find_by-none,
}
use alresia_voltpanel.Deployment.{
  Deployment, Tables, TableError, database_error, insert_deployment, Ending, finish_deployment,
  get_deployment, deployment_id, ended,
}
use alresia_voltpanel.Deployment.Engine.{Cause}
use alresia_voltpanel.Deployment.Calls.{
  Answer, table_failed, recorded, crashed, Later, status_of, report,
}

-- The row of a run: with its ending, or as it began.
pub data Row (db : Tables) (id : String) (later : Later) : Answer → Type 0 where
  is_success :
      (d : Deployment)
      → find_by deployment_id id db.deployments ≡ some d
      → d.status ≡ "success"
      → Row db id later (recorded d none)
  is_failure :
      (d : Deployment) (c : Cause)
      → find_by deployment_id id db.deployments ≡ some d
      → d.status ≡ "failed"
      → Row db id later (recorded d (some c))
  is_running :
      (d : Deployment)
      → find_by deployment_id id db.deployments ≡ some d
      → d.status ≡ "running"
      → Row db id later crashed
  -- `finish` failed
  is_unfinished :
      (d : Deployment) (x : TableError)
      → later.finishes ≡ false
      → find_by deployment_id id db.deployments ≡ some d
      → d.status ≡ "running"
      → Row db id later (table_failed x)
  -- the Get after `finish` failed
  is_unread :
      (d : Deployment) (x : TableError)
      → later.finishes ≡ true
      → later.reads ≡ false
      → find_by deployment_id id db.deployments ≡ some d
      → (d.status ≡ "success") ⊎ (d.status ≡ "failed")
      → Row db id later (table_failed x)

-- The table after a new row.
abbrev pub Inserted : Tables → Tables → Deployment → Type 0
Inserted db db' d =
    (db'.is_up ≡ true)
    × ((v : String)
        → find_by deployment_id v db'.deployments
          ≡ (if str_eq d.id v then some d else find_by deployment_id v db.deployments))

pub Inserted-find_by :
    (db : Tables) (d : Deployment)
    → (insert_deployment db d).1 ≡ none
    → Inserted db (insert_deployment db d).0 d
unfolding insert_deployment
Inserted-find_by db d =
    on_if (λ (o : Tables × Option TableError). o.1 ≡ none → Inserted db o.0 d)
      (not db.is_up
        || has_key deployment_id d.id db.deployments
        || not (elem d.project_id db.projects)
        || not (elem d.server_id db.servers))
      _ _ (λ _ h. cc)
      λ free h. (
        ground (arith, free),
        λ v. ground (
          arith,
          find_by-append deployment_id v db.deployments d,
          find_by-none deployment_id v db.deployments,
          eq_iff d.id v,
          free,
        ),
      )

-- Every row but the run's own is as before.
abbrev pub OthersKept : Tables → Tables → String → Type 0
OthersKept db db' id =
    (v : String)
    → str_eq id v ≡ false
    → find_by deployment_id v db'.deployments ≡ find_by deployment_id v db.deployments

pub get_found :
    (db : Tables) (id : String) (d : Deployment)
    → db.is_up ≡ true
    → find_by deployment_id id db.deployments ≡ some d
    → get_deployment db id ≡ done d
unfolding get_deployment
get_found db id d up found = ground (arith, up, found)

-- the row `d` of the run, once its ending is written
module _ (db : Tables) (id : String) (d : Deployment)
    (found : find_by deployment_id id db.deployments ≡ some d) (e : Ending) where
  abbrev pub after_finish : Bool → Tables
  after_finish up = record db {
    deployments = change deployment_id id (ended e) db.deployments;
    is_up = up;
  }

  pub finished :
      (up : Bool) → find_by deployment_id id (after_finish up).deployments ≡ some (ended e d)
  finished up = ground (
    arith,
    find_by-change deployment_id id id (ended e) db.deployments (λ r. unfold ended in refl),
    found,
    str_eq_refl id,
  )

  others_after : (up : Bool) → OthersKept db (after_finish up) id
  others_after up v other = elim (Option-cases (find_by deployment_id v db.deployments)) [
    | inl g ↦
        find_by-change deployment_id id v (ended e) db.deployments (λ r. unfold ended in refl)
        ∙ rw g refl
    | inr (a, g) ↦
        find_by-change deployment_id id v (ended e) db.deployments (λ r. unfold ended in refl)
        ∙ rw (g, other) refl
  ]

  finished-Row :
      (reads : Bool) (cause : Option Cause)
      → e.status ≡ status_of cause
      → Row
          (after_finish reads)
          id
          (record { finishes = true; reads = reads })
          (report (after_finish reads) id none cause)
  unfolding report ended status_of get_deployment
  finished-Row true none same =
      rw (get_found (after_finish true) id (ended e d) refl (finished true), report)
        (is_success (ended e d) (finished true) same)
  finished-Row true (some c) same =
      rw (get_found (after_finish true) id (ended e d) refl (finished true), report)
        (is_failure (ended e d) c (finished true) same)
  finished-Row false none same =
      is_unread (ended e d) database_error refl refl (finished false) (inl same)
  finished-Row false (some c) same =
      is_unread (ended e d) database_error refl refl (finished false) (inr same)

  -- what `finish` and Get make of the row, by how the database can be reached
  pub ending-Row :
      (finishes reads : Bool) (cause : Option Cause)
      → d.status ≡ "running"
      → e.status ≡ status_of cause
      → let o = finish_deployment (record db { is_up = finishes }) id e in
        let after = record o.0 { is_up = reads } in
        Row after id (record { finishes = finishes; reads = reads }) (report after id o.1 cause)
        × OthersKept db after id
  unfolding finish_deployment report
  ending-Row true reads cause runs same = (finished-Row reads cause same, others_after reads)
  ending-Row false reads cause runs same =
      (is_unfinished d database_error refl found runs, λ v other. refl)
