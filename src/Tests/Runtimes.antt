-- ===== src/Tests/Runtimes.antt =====
-- internal/domain/runtime/runtime.go at one runtime with two versions.
use alresia_voltpanel.Prelude.{
  String, some, ◌≤◌, ◌≡◌, refl, true, false, List, [], ◌∷◌, length, tally,
}
use alresia_voltpanel.Prelude.Table.{find_by, has_key, change}
use alresia_voltpanel.Runtimes.{
  is_pair, DetectedVersion, Database, replace_detected, set_default_version, ensure_runtime,
  get_runtime_by_kind, insert_runtime, detect_into, place_all, place, find_version, mark_missing,
  redetect, detected_row, bool_to_int, set_default_of, make_default, clear_default,
}
use alresia_voltpanel.Runtimes.Histories.{
  Operation, detects, picks, new_database, perform, perform_all,
}
use alresia_voltpanel.Runtimes.Detected.{Replaced, replace_detected-Replaced}
use alresia_voltpanel.Runtimes.Handlers.{Provider}
use alresia_voltpanel.Runtimes.Requests.{lists, installs, handle_all, handle_all-more}
use alresia_voltpanel.Runtimes.Defaults.{is_default_of, Picked, set_default_version-Picked}

abbrev newest : DetectedVersion
newest = record { version = "22.1.0"; install_path = "/opt/node22"; is_default = true }

abbrev older : DetectedVersion
older = record { version = "20.9.0"; install_path = "/opt/node20"; is_default = false }

abbrev history : List Operation
history =
    detects "r1" "node" "Node.js" (("v1", newest) ∷ ("v2", older) ∷ [])
    ∷ detects "r2" "node" "Node.js" (("v3", older) ∷ [])
    ∷ []

set_default_version-Picked_example :
    let db = perform_all new_database history in
    Picked db "node" "20.9.0" (set_default_version db "node" "20.9.0")
set_default_version-Picked_example = set_default_version-Picked history "node" "20.9.0"

two_versions : length (perform_all new_database history).versions ≡ 2
unfolding perform_all perform new_database replace_detected ensure_runtime get_runtime_by_kind
    insert_runtime detect_into place_all place find_version mark_missing redetect detected_row
    bool_to_int find_by has_key change
two_versions = refl

replace_detected-Replaced_example :
    let db = perform_all new_database history in
    Replaced db "node"
      ("20.9.0" ∷ [])
      (replace_detected db "r3" "node" "Node.js" (("v4", older) ∷ []))
replace_detected-Replaced_example =
    replace_detected-Replaced history "r3" "node" "Node.js" (("v4", older) ∷ [])

abbrev picked : Database
picked = perform_all new_database (
    detects "r1" "node" "Node.js" (("v1", newest) ∷ ("v2", older) ∷ [])
    ∷ picks "node" "20.9.0"
    ∷ [])

-- the default that detection found is missing, and the next one found is a second default
two_defaults :
    tally
      (is_default_of "r1")
      (replace_detected picked "r2" "node" "Node.js" (("v3", newest) ∷ [])).0.versions
    ≡ 2
unfolding perform_all perform new_database replace_detected ensure_runtime get_runtime_by_kind
    insert_runtime detect_into place_all place find_version mark_missing redetect detected_row
    bool_to_int find_by has_key change set_default_version set_default_of make_default clear_default
two_defaults = refl

abbrev nvm : Provider
nvm = record {
  kind = "node";
  new_id = "r1";
  detected = some (("v1", newest) ∷ ("v2", older) ∷ []);
  acts = true;
}

abbrev emptied : Provider
emptied = record nvm { detected = some [] }

abbrev upper : String → String
upper s = s

handle_all-more_example :
    let db = handle_all upper new_database (lists (("node", nvm) ∷ []) ∷ []) in
    let db' = handle_all upper db (installs (("node", emptied) ∷ []) "node" "22.1.0" ∷ []) in
    (tally (is_pair "r1" "22.1.0") db.versions ≤ tally (is_pair "r1" "22.1.0") db'.versions)
    × (tally (is_pair "r1" "22.1.0") db'.versions ≤ 1)
handle_all-more_example =
    handle_all-more upper (lists (("node", nvm) ∷ []) ∷ [])
      (installs (("node", emptied) ∷ []) "node" "22.1.0" ∷ []) "r1" "22.1.0"
