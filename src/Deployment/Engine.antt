-- ===== src/Deployment/Engine.antt =====
-- internal/domain/deployment/engine.go. `Host` is what it reaches outside the database: sessions on
-- servers, HTTP, secrets, files and the clock, over a state `W`. `filepath.Join` is written for a
-- clean log directory and an id without `/`.
use alresia_voltpanel.Prelude.{
  ℕ, String, Bool, true, false, not, ◌||◌, Option, none, some, List, [], ◌∷◌, str_eq, concat, ltb,
  if◌then◌else◌, Outcome, failed, done, decimal,
}
use alresia_voltpanel.Deployment.{Target}
use alresia_voltpanel.Deployment.Shell.{sh_quote}
use alresia_voltpanel.Deployment.Text.{trim_space, has_prefix, trim_prefix, replace_all}

-- A session is named by its server's id; `now` is in milliseconds. `is_request` is false where
-- `http.NewRequestWithContext` returns an error and no request.
pub record Host (W : Type 0) : Type 0 where
  pub now : W → ℕ
  pub connect : W → String → W × Option String
  pub exec : W → String → String → W × String × String × Option String
  pub close : W → String → W
  pub find_integration : W → String → Outcome String String
  pub resolve_secret : W → String → Outcome String String
  pub is_request : String → Bool
  pub get_status : W → String → W × Outcome String ℕ
  pub log_dir : String
  pub make_dir : W → String → W × Option String
  pub write_file : W → String → String → W × Option String

pub data Cause : Type 0 where
  connect_failed : String → Cause
  no_credentials : String → Cause
  checkout_failed : String → Cause
  install_failed : String → Cause
  restart_failed : String → Cause
  health_check_failed : String → Cause
  unexpected_http : ℕ → Cause
  rollback_checkout_failed : String → Cause

unfoldable pub message : Cause → String
message (connect_failed e) = concat "connect: " e
message (no_credentials e) = concat "resolve repo credentials: " e
message (checkout_failed e) = concat "checkout: " e
message (install_failed e) = concat "install: " e
message (restart_failed e) = concat "restart: " e
message (health_check_failed e) = concat "health check: " e
message (unexpected_http n) = concat "health check: unexpected HTTP " (decimal n)
message (rollback_checkout_failed e) = concat "checkout rollback ref: " e

-- How the anonymous function of `Deploy` or `Rollback` ends: nil, an error, or a panic.
pub data Ended : Type 0 where
  fine : Ended
  because : Cause → Ended
  panicked : Ended

-- The variables that the anonymous function captures, with the state outside.
pub record Progress (W : Type 0) : Type 0 where
  pub world : W
  pub log : String
  pub commit_sha : String
  pub code_rollback_ref : String

abbrev pub Stage : Type 0 → Type 0
Stage W = Progress W → Progress W × Ended

-- the next stage, unless the function has returned
unfoldable pub and_then : {W : Type 0} → Progress W × Ended → Stage W → Progress W × Ended
and_then (p, fine) next = next p
and_then (p, because c) next = (p, because c)
and_then (p, panicked) next = (p, panicked)

unfoldable pub ending_of : (String → Cause) → Option String → Ended
ending_of cause none = fine
ending_of cause (some e) = because (cause e)

unfoldable pub is_ok : Option String → Bool
is_ok none = true
is_ok (some e) = false

-- git -C <path> rev-parse HEAD
abbrev rev_parse : Target → String
rev_parse target = concat "git -C " (concat (sh_quote target.deploy_path) " rev-parse HEAD")

abbrev words : List String → String
words [] = ""
words (s ∷ ss) = concat s (words ss)

unfoldable pub checkout_command : Target → String → String
checkout_command target url =
    let path = sh_quote target.deploy_path in
    let branch = sh_quote target.branch in
    words (
      "set -e; mkdir -p "
      ∷ path
      ∷ "; if [ -d "
      ∷ path
      ∷ "/.git ]; then cd "
      ∷ path
      ∷ " && git fetch origin "
      ∷ branch
      ∷ " && git checkout "
      ∷ branch
      ∷ " && git reset --hard origin/"
      ∷ branch
      ∷ "; else git clone --branch "
      ∷ branch
      ∷ " "
      ∷ sh_quote url
      ∷ " "
      ∷ path
      ∷ "; fi"
      ∷ [])

module _ {W : Type 0} (host : Host W) where
  -- the real URL and the one for the log
  unfoldable pub resolve_clone_url : W → Target → Outcome String (String × String)
  resolve_clone_url w target =
      let rest = trim_prefix target.repo_url "https://" in
      let resolved : Outcome String (String × String) =
        elim (host.find_integration w target.integration_id) [
          | failed e ↦ failed e
          | done secret_ref ↦ elim (host.resolve_secret w secret_ref) [
            | failed e ↦ failed e
            | done token ↦
                done (words ("https://" ∷ token ∷ "@" ∷ rest ∷ []), concat "https://***@" rest)
          ]
        ] in
      if str_eq target.integration_id "" || not (has_prefix target.repo_url "https://")
      then done (target.repo_url, target.repo_url)
      else resolved

  -- a line `$ shown` in the log, the command, and its output in the log
  unfoldable pub exec_logged : String → String → String → (String → Cause) → Stage W
  exec_logged server shown command cause p =
      let (w', out, stderr, e) = host.exec p.world server command in
      (
        record p { world = w'; log = words (p.log ∷ "$ " ∷ shown ∷ "\n" ∷ out ∷ stderr ∷ []) },
        ending_of cause e,
      )

  unfoldable pub read_previous_head : Target → Stage W
  read_previous_head target p =
      let command = concat (rev_parse target) " 2>/dev/null || true" in
      let (w', out, stderr, e) = host.exec p.world target.server_id command in
      let previous = if is_ok e then trim_space out else p.code_rollback_ref in
      (record p { world = w'; code_rollback_ref = previous }, fine)

  unfoldable pub read_head : Target → Stage W
  read_head target p =
      let (w', out, stderr, e) = host.exec p.world target.server_id (rev_parse target) in
      let head = if is_ok e then trim_space out else p.commit_sha in
      (record p { world = w'; commit_sha = head }, fine)

  unfoldable pub checkout : Target → String × String → Stage W
  checkout target (url, redacted) p =
      let command = checkout_command target url in
      exec_logged target.server_id (replace_all command url redacted) command checkout_failed p

  unfoldable pub install : Target → Stage W
  install target p =
      let command =
        words ("cd " ∷ sh_quote target.deploy_path ∷ " && " ∷ target.install_command ∷ []) in
      let run = exec_logged target.server_id command command install_failed p in
      if str_eq target.install_command "" then (p, fine) else run

  unfoldable pub restart : Target → Stage W
  restart target p =
      let run =
        exec_logged target.server_id target.restart_command target.restart_command restart_failed
          p in
      if str_eq target.restart_command "" then (p, fine) else run

  -- the answer to the health check
  unfoldable pub judge : Progress W → W × Outcome String ℕ → Progress W × Ended
  judge p (w, failed e) = (record p { world = w }, because (health_check_failed e))
  judge p (w, done n) = (
    record p { world = w; log = words (p.log ∷ "health check: HTTP " ∷ decimal n ∷ "\n" ∷ []) },
    if ltb n 200 || not (ltb n 300) then because (unexpected_http n) else fine,
  )

  -- `Do` on the nil request of a malformed URL panics.
  unfoldable pub health_check : Target → Stage W
  health_check target p =
      let asked : Progress W = record p {
        log = words (p.log ∷ "health check: GET " ∷ target.health_check_url ∷ "\n" ∷ []);
      } in
      let answered = judge asked (host.get_status p.world target.health_check_url) in
      if str_eq target.health_check_url ""
      then (p, fine)
      else if host.is_request target.health_check_url
      then answered
      else (asked, panicked)

  unfoldable pub after_checkout : Target → Stage W
  after_checkout target p =
      and_then (and_then (and_then (read_head target p) (install target)) (restart target))
        (health_check target)

  unfoldable pub deploy_to : Target → String × String → Stage W
  deploy_to target urls p =
      and_then (and_then (read_previous_head target p) (checkout target urls))
        (after_checkout target)

  unfoldable pub in_session : Target → Stage W
  in_session target p = elim (resolve_clone_url p.world target) [
    | failed e ↦ (p, because (no_credentials e))
    | done urls ↦ deploy_to target urls p
  ]

  unfoldable pub roll_back_to : Target → String → Stage W
  roll_back_to target ref p =
      let command =
        words ("cd " ∷ sh_quote target.deploy_path ∷ " && git checkout " ∷ sh_quote ref ∷ []) in
      and_then (exec_logged target.server_id command command rollback_checkout_failed p)
        (restart target)

  -- the anonymous function: a session that is closed however `body` ends
  unfoldable pub with_session : String → Stage W → Stage W
  with_session server body p =
      let (w', e) = host.connect p.world server in
      let (p', how) = body (record p { world = w' }) in
      elim e [
        | some x ↦ (record p { world = w' }, because (connect_failed x))
        | none ↦ (record p' { world = host.close p'.world server }, how)
      ]

  -- the file that is written once its directory is there
  unfoldable pub write_log_file : W → String → String → W × Outcome String String
  write_log_file w path content =
      let (w', e) = host.write_file w path content in
      (w', elim e [ none ↦ done path | some x ↦ failed x ])

  unfoldable pub write_log : W → String → String → W × Outcome String String
  write_log w id content =
      let (w', e) = host.make_dir w host.log_dir in
      let written = write_log_file w' (words (host.log_dir ∷ "/" ∷ id ∷ ".log" ∷ [])) content in
      let answer : W × Outcome String String = elim e [
        | some x ↦ (w', failed x)
        | none ↦ written
      ] in
      if str_eq host.log_dir "" then (w, done "") else answer
