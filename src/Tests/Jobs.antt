-- ===== src/Tests/Jobs.antt =====
-- internal/domain/job/job.go at two jobs.
use alresia_voltpanel.Prelude.{ℕ, ◌≡◌, refl, String, true, none, [], ◌∷◌, done}
use alresia_voltpanel.Prelude.Int.{pos}
use alresia_voltpanel.Jobs.{JobRow, JobTable, is_running, reconcile_stale, finish_job}
use alresia_voltpanel.Jobs.Stale.{Reconciled, reconcile_stale-done}

abbrev job : String → String → ℕ → JobRow
job id status started_at = record {
  id = id;
  kind = "install";
  target = "php@8.3";
  status = status;
  log_file = "/var/log/volt/job.log";
  error = none;
  exit_code = none;
  started_at = started_at;
  finished_at = none;
}

abbrev two_jobs : JobTable
two_jobs = record { rows = job "j1" "success" 10 ∷ job "j2" "running" 20 ∷ []; is_up = true }

abbrev reconciled : JobTable
reconciled = (reconcile_stale two_jobs 30).0

one_stale : reconcile_stale two_jobs 30 ≡ (reconciled, done 1)
unfolding reconcile_stale is_running
one_stale = refl

reconcile_stale-done_example : Reconciled two_jobs reconciled 30 1
reconcile_stale-done_example = reconcile_stale-done two_jobs reconciled 30 1 one_stale

abbrev finished : JobTable
finished = (finish_job two_jobs "j2" "failed" (pos 1) "no formula" 30).0
