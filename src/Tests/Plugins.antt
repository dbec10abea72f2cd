-- ===== src/Tests/Plugins.antt =====
-- internal/pluginhost and internal/domain/extension on an extension of Python.
use alresia_voltpanel.Prelude.{
  ℕ, String, true, none, some, List, [], ◌∷◌, ◌≡◌, refl, str_eq, if◌then◌else◌, done,
}
use alresia_voltpanel.Prelude.Dict.{get, string_key}
use alresia_voltpanel.Prelude.Paths.{FilePath}
use alresia_voltpanel.Prelude.Table.{find_by, has_key, change}
use alresia_voltpanel.Plugins.Protocol.{
  Handshake, Manifest, Json, Files, read_manifest, is_supported_version,
}
use alresia_voltpanel.Plugins.Host.{
  ExternalProvider, line, timed_out, Launch, started, load_extension, read_handshake,
}
use alresia_voltpanel.Plugins.Lockstep.{Call, talk, InLockstep, talk-InLockstep}
use alresia_voltpanel.Plugins.Loading.{AsAnswered, load_extension-AsAnswered}
use alresia_voltpanel.Plugins.Registry.{Registry}
use alresia_voltpanel.Plugins.Extensions.{get_extension, close_all, Provider, World, built_in}
use alresia_voltpanel.Plugins.Orphans.{Runs, NoOrphan}
use alresia_voltpanel.Plugins.Histories.{
  Operation, install_from, enable_one, disable_one, perform_all, new_repository,
  perform_all-NoOrphan,
}
use alresia_voltpanel.Plugins.Consent.{is_enabled}
use alresia_voltpanel.Plugins.Consented.{all_execute, perform_all-enabled}

abbrev python : Manifest
python = record {
  name = "python";
  version = "1.0";
  kind = "runtime";
  executable = "python3";
  args = "provider.py" ∷ [];
  permissions = [];
}

abbrev greeting : Handshake
greeting = record { protocol_version = 1; kind = "runtime"; name = "python"; methods = [] }

-- messages that are their own id, one manifest and one handshake
abbrev json : Json
json = record {
  parse_manifest = λ text. if str_eq text "python" then some python else none;
  parse_handshake = λ text. if str_eq text "hello" then some greeting else none;
  parse_response = λ text. some (record { id = text; result = "[]"; error = "" });
  parse_versions = λ text. some [];
  parse_permissions = λ text. some [];
  print_request = λ r. some r.id;
  print_params = λ params. some "{}";
  print_permissions = λ permissions. some "[]";
}

abbrev folder : FilePath
folder = record { rooted = true; parts = "opt" ∷ "python" ∷ [] }

abbrev files : Files
files = record { stat = λ p. some true; read_file = λ p. some "python" }

abbrev launch : Launch
launch = record { starts = true; event = line "hello" }

abbrev world : World
world = record { queries = true; executes = true; files = files; launch = launch }

abbrev ready : ExternalProvider
ready = record (started python folder) { handshake = greeting }

-- a call that is answered, one that is not in time, and one after that
abbrev calls : List Call
calls =
    record {
      turn = record { id = "a"; writes = true; event = line "a" };
      method = "DetectInstalled";
      params = none;
    }
    ∷ record {
      turn = record { id = "b"; writes = true; event = timed_out };
      method = "Install";
      params = some (("version", "3.12") ∷ []);
    }
    ∷ record {
      turn = record { id = "c"; writes = true; event = line "c" };
      method = "DetectInstalled";
      params = none;
    }
    ∷ []

manifest_found : read_manifest json files folder ≡ done (python, folder)
unfolding read_manifest
manifest_found = refl

one_answer : (talk json calls ready).received ≡ "a" ∷ []
unfolding talk started
one_answer = refl

ready-InLockstep : InLockstep json ready
unfolding started
ready-InLockstep = record { answered = λ _. refl; stopped = λ bad. cc }

talk-InLockstep_example : InLockstep json (talk json calls ready)
talk-InLockstep_example = talk-InLockstep json calls ready ready-InLockstep

load_extension-AsAnswered_example : AsAnswered json (load_extension json files launch folder)
load_extension-AsAnswered_example = load_extension-AsAnswered json files launch folder

abbrev history : List Operation
history =
    install_from world "p1" folder
    ∷ enable_one world "p1"
    ∷ disable_one world "p1"
    ∷ enable_one world "p1"
    ∷ []

abbrev built_ins : Registry Provider
built_ins = ("node", built_in "node") ∷ []

perform_all-NoOrphan_example :
    let repo = perform_all json history (new_repository built_ins) in
    NoOrphan repo × ((k : ℕ) → ¬ Runs k (close_all repo).processes)
perform_all-NoOrphan_example = perform_all-NoOrphan json history built_ins

second_process : Runs 1 (perform_all json history (new_repository built_ins)).processes
unfolding perform_all get_extension find_by read_manifest has_key load_extension read_handshake
    is_supported_version change started
second_process = record { provider = ready; known = refl; running = refl }

perform_all-enabled_example :
    (id : String) × (get id (perform_all json history (new_repository built_ins)).loaded ≡ some 1)
    × (is_enabled id (perform_all json history (new_repository built_ins)).rows ≡ true)
unfolding all_execute
perform_all-enabled_example = perform_all-enabled json history built_ins 1 refl second_process
