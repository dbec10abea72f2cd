-- ===== src/Tests/Deployment.antt =====
-- internal/domain/deployment at one target on a host whose state counts the commands it ran.
use alresia_voltpanel.Prelude.{
  ℕ, suc, ◌≡◌, refl, true, false, none, some, [], ◌∷◌, failed, done, concat,
}
use alresia_voltpanel.Prelude.Table.{find_by, has_key, change, order_by, insert_by}
use alresia_voltpanel.Deployment.{
  Target, Deployment, Tables, insert_deployment, finish_deployment, get_deployment,
  targets_of_project, ended,
}
use alresia_voltpanel.Deployment.Shell.{
  bare, read_word, sh_quote, ends_word, is_special, read_word-sh_quote,
}
use alresia_voltpanel.Deployment.Engine.{
  Host, and_then, ending_of, exec_logged, restart, roll_back_to, with_session, write_log,
  write_log_file,
}
use alresia_voltpanel.Deployment.Calls.{
  Answer, Later, recorded, no_rollback_ref, deploy, rollback, rollback_with, run_rollback,
  find_server, new_deployment, conclude, log_ref, log_text, record_run, report, status_of,
}
use alresia_voltpanel.Deployment.Rollbacks.{rollback-rollback}

abbrev machine : Host ℕ
machine = record {
  now = λ w. w;
  connect = λ w server. (suc w, none);
  exec = λ w server command. (suc w, "4f2a\n", "", none);
  close = λ w server. suc w;
  find_integration = λ w id. failed "not found";
  resolve_secret = λ w secret_ref. failed "not found";
  is_request = λ url. true;
  get_status = λ w url. (suc w, done 200);
  log_dir = "/var/log/volt";
  make_dir = λ w path. (w, none);
  write_file = λ w path content. (suc w, none);
}

abbrev shop : Target
shop = record {
  id = "t1";
  project_id = "p1";
  server_id = "s1";
  repo_url = "https://example.org/shop.git";
  integration_id = "";
  branch = "main";
  deploy_path = "/srv/it's";
  install_command = "make";
  restart_command = "";
  health_check_url = "http://localhost/";
  created_at = 1;
  updated_at = 1;
}

abbrev tables : Tables
tables = record {
  projects = "p1" ∷ [];
  servers = "s1" ∷ [];
  integrations = [];
  targets = shop ∷ [];
  deployments = [];
  is_up = true;
}

abbrev reachable : Later
reachable = record { finishes = true; reads = true }

abbrev deployed : Tables
deployed = (deploy machine tables 0 reachable "d1" "t1").0

abbrev earlier : Deployment
earlier = record {
  id = "d1";
  project_id = "p1";
  server_id = "s1";
  commit_sha = "4f2a";
  branch = "main";
  status = "success";
  started_at = some 1;
  finished_at = some 2;
  duration_ms = 1000;
  log_ref = "";
  code_rollback_ref = "91bc";
  artifact_rollback_ref = "";
  migration_rollback_supported = false;
}

abbrev back : Tables × ℕ × Answer
back = rollback machine (record tables { deployments = earlier ∷ [] }) 0 reachable "d2" "d1"

abbrev returned : Deployment
returned = record earlier {
  id = "d2";
  commit_sha = "91bc";
  started_at = some 0;
  finished_at = some 0;
  duration_ms = 4;
  log_ref = "/var/log/volt/d2.log";
  code_rollback_ref = "";
}

back_lem : back.2 ≡ recorded returned none
unfolding rollback get_deployment find_by targets_of_project order_by insert_by rollback_with
    find_server run_rollback insert_deployment has_key new_deployment conclude with_session
    roll_back_to and_then exec_logged ending_of restart log_ref log_text record_run report status_of
    write_log write_log_file ended finish_deployment change
back_lem = refl

rollback-rollback_example :
    rollback machine back.0 7 reachable "d3" "d2" ≡ (back.0, 7, no_rollback_ref "d2")
rollback-rollback_example =
    rollback-rollback machine (record tables { deployments = earlier ∷ [] }) 0 reachable "d2" "d1"
      returned none back_lem 7 reachable "d3"

space_ends : read_word bare " && make" ≡ some ("", " && make")
unfolding read_word ends_word is_special
space_ends = refl

read_word-sh_quote_example :
    read_word bare (concat (sh_quote "it's") " && make") ≡ some ("it's", " && make")
read_word-sh_quote_example = read_word-sh_quote "it's" " && make" space_ends
