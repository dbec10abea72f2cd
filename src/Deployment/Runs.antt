-- ===== src/Deployment/Runs.antt =====
-- What `Deploy` of internal/domain/deployment/engine.go leaves in the table, and in which order its
-- stages run.
use alresia_voltpanel.Prelude.{◌≡◌, true, false}
use alresia_voltpanel.Deployment.{Deployment}
use alresia_voltpanel.Deployment.Calls.{
  Answer, no_target, no_server, no_deployment, no_rollback_ref, no_project_target, table_failed,
  recorded, crashed,
}

-- The answers that come before any run.
abbrev pub Refuses : Answer → Type 0
Refuses (no_target e) = Unit {0}
Refuses (no_server e) = Unit {0}
Refuses (table_failed e) = Unit {0}
Refuses (no_deployment e) = true ≡ false
Refuses (no_rollback_ref id) = true ≡ false
Refuses (no_project_target id) = true ≡ false
Refuses (recorded d c) = true ≡ false
Refuses crashed = true ≡ false
