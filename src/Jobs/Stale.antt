-- ===== src/Jobs/Stale.antt =====
-- `ReconcileStale` and `Finish` of internal/domain/job/job.go.
use alresia_voltpanel.Prelude.{
  ℕ, ◌/◌, ◌≡◌, ◌∙◌, refl, sym, ap, String, true, none, some, List, [], ◌∷◌, str_eq, arith,
  Bool-cases, inl, inr, if◌then◌else◌, on_if, tally, Outcome, done,
}
use alresia_voltpanel.Prelude.Table.{find_by}
use alresia_voltpanel.Storage.{second}
use alresia_voltpanel.Jobs.{
  JobRow, JobTable, JobError, job_id, status_running, is_running, interrupted, reconcile_rows,
  reconcile_stale,
}

reconcile_rows-none :
    (now : ℕ) (rows : List JobRow) → tally is_running (reconcile_rows now rows) ≡ 0
unfolding reconcile_rows is_running interrupted
reconcile_rows-none now [] = refl
reconcile_rows-none now (r ∷ rows) =
    let rest = reconcile_rows-none now rows in
    elim (Bool-cases (str_eq r.status status_running)) [
      | inl e ↦ rw e (omega (arith, rest))
      | inr e ↦ rw e (rw e (omega (arith, rest)))
    ]

find_by-reconcile_rows :
    (now : ℕ) (id : String) (rows : List JobRow)
    → find_by job_id id (reconcile_rows now rows) ≡ (elim (find_by job_id id rows) [
      | none ↦ none
      | some r ↦ some (if is_running r then interrupted now r else r)
    ])
unfolding reconcile_rows is_running interrupted find_by
find_by-reconcile_rows now id [] = refl
find_by-reconcile_rows now id (r ∷ rows) = elim (Bool-cases (str_eq r.id id)) [
  | inl m ↦ elim (Bool-cases (str_eq r.status status_running)) [
    | inl e ↦ rw e (rw m (rw e refl))
    | inr e ↦ rw e (rw m (rw e refl))
  ]
  | inr m ↦ elim (Bool-cases (str_eq r.status status_running)) [
    | inl e ↦ rw e (rw m (find_by-reconcile_rows now id rows))
    | inr e ↦ rw e (rw m (find_by-reconcile_rows now id rows))
  ]
]

-- What `ReconcileStale` leaves of each job, and how many it has changed.
abbrev pub Reconciled : JobTable → JobTable → ℕ → ℕ → Type 0
Reconciled table table' now n =
    (n ≡ tally is_running table.rows)
    × (tally is_running table'.rows ≡ 0)
    × ((id : String)
        → find_by job_id id table'.rows ≡ (elim (find_by job_id id table.rows) [
          | none ↦ none
          | some r ↦ some (
              if str_eq r.status "running"
              then record r {
                status = "failed";
                error = some "interrupted: daemon restarted while this job was still running";
                finished_at = some (now / second);
              }
              else r)
        ]))

-- After a successful `ReconcileStale` no job is recorded as running; the answer is the number of
-- those that were; each of them is recorded as failed, with the message that the daemon was
-- restarted and the second of the call as its end, and is otherwise as it was, as every other job
-- is.
pub reconcile_stale-done :
    (table table' : JobTable) (now n : ℕ)
    → reconcile_stale table now ≡ (table', done n)
    → Reconciled table table' now n
unfolding reconcile_stale is_running interrupted
reconcile_stale-done table table' now n =
    on_if
      (λ (o : JobTable × Outcome JobError ℕ). o ≡ (table', done n) → Reconciled table table' now n)
      table.is_up _ _
      (λ _ h. (
        ground (arith, h),
        ap (λ (o : JobTable × Outcome JobError ℕ). tally is_running o.0.rows) (sym h)
            ∙ reconcile_rows-none now table.rows,
        λ id.
            ap (λ (o : JobTable × Outcome JobError ℕ). find_by job_id id o.0.rows) (sym h)
            ∙ find_by-reconcile_rows now id table.rows,
      ))
      λ _ h. cc

-- The lookups after the update of a row.
abbrev Updated : JobTable → JobTable → String → (JobRow → JobRow) → Type 0
Updated table table' id f =
    (table.is_up ≡ true)
    × (table'.is_up ≡ true)
    × ((v : String)
        → find_by job_id v table'.rows ≡ (elim (find_by job_id v table.rows) [
          | none ↦ none
          | some r ↦ some (if str_eq id v then f r else r)
        ]))
