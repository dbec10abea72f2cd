-- ===== src/Plugins/Protocol.antt =====
-- internal/pluginhost/protocol.go and the manifest of host.go. The uses of encoding/json are
-- arguments, in `Json`; a raw message is its text, and `none` of a decoder is its error.
use alresia_voltpanel.Prelude.{
  ℕ, String, Bool, false, ◌||◌, Option, none, some, List, [], ◌∷◌, ◌++◌, str_eq, concat,
  if◌then◌else◌, ◌==◌, Outcome, failed, done,
}
use alresia_voltpanel.Prelude.Dict.{Dict}
use alresia_voltpanel.Prelude.Paths.{FilePath, join, dir}

abbrev pub protocol_version : ℕ
protocol_version = 1

abbrev pub supported_versions : List ℕ
supported_versions = 1 ∷ []

unfoldable among : ℕ → List ℕ → Bool
among v [] = false
among v (sv ∷ svs) = (sv == v) || among v svs

unfoldable pub is_supported_version : ℕ → Bool
unfolding among
is_supported_version v = among v supported_versions

pub record Handshake : Type 0 where
  pub protocol_version : ℕ
  pub kind : String
  pub name : String
  pub methods : List String

-- `params` is "" for a nil raw message.
pub record Request : Type 0 where
  pub id : String
  pub method : String
  pub params : String

pub record Response : Type 0 where
  pub id : String
  pub result : String
  pub error : String

pub record Manifest : Type 0 where
  pub name : String
  pub version : String
  pub kind : String
  pub executable : String
  pub args : List String
  pub permissions : List String

pub record RuntimeVersion : Type 0 where
  pub version : String
  pub install_path : String
  pub is_default : Bool

pub record Json : Type 0 where
  pub parse_manifest : String → Option Manifest
  pub parse_handshake : String → Option Handshake
  pub parse_response : String → Option Response
  pub parse_versions : String → Option (List RuntimeVersion)
  pub parse_permissions : String → Option (List String)
  pub print_request : Request → Option String
  pub print_params : Dict String String → Option String
  pub print_permissions : List String → Option String

unfoldable absent : String → String → List String
absent name value = if str_eq value "" then name ∷ [] else []

unfoldable pub missing_fields : Manifest → List String
unfolding absent
missing_fields m =
    absent "name" m.name
    ++ absent "version" m.version
    ++ absent "kind" m.kind
    ++ absent "executable" m.executable

unfoldable comma_separated : List String → String
comma_separated [] = ""
comma_separated (x ∷ []) = x
comma_separated (x ∷ y ∷ xs) = concat (concat x ", ") (comma_separated (y ∷ xs))

unfoldable pub validate : Manifest → Option String
unfolding missing_fields comma_separated
validate m = elim (missing_fields m) [
  | [] ↦ none
  | (x ∷ xs) ↦ some (
      concat "pluginhost: manifest missing required field(s): "
        (comma_separated (missing_fields m)))
]

-- os.Stat (is it a directory) and os.ReadFile
pub record Files : Type 0 where
  pub stat : FilePath → Option Bool
  pub read_file : FilePath → Option String

pub data ManifestError : Type 0 where
  no_file : ManifestError
  unreadable : ManifestError
  unparsable : ManifestError
  invalid : String → ManifestError

abbrev pub manifest_file_name : String
manifest_file_name = "volt-extension.json"

unfoldable pub manifest_path : FilePath → Bool → FilePath
unfolding join
manifest_path path is_dir = if is_dir then join path (manifest_file_name ∷ []) else path

unfoldable pub accept_manifest : FilePath → Manifest → Outcome ManifestError (Manifest × FilePath)
unfolding validate dir
accept_manifest path m = elim (validate m) [
  | some e ↦ failed (invalid e)
  | none ↦ done (m, dir path)
]

unfoldable pub parse_at : Json → Files → FilePath → Outcome ManifestError (Manifest × FilePath)
unfolding accept_manifest
parse_at json files path = elim (files.read_file path) [
  | none ↦ failed unreadable
  | some text ↦ elim (json.parse_manifest text) [
    | none ↦ failed unparsable
    | some m ↦ accept_manifest path m
  ]
]

unfoldable pub read_manifest : Json → Files → FilePath → Outcome ManifestError (Manifest × FilePath)
unfolding parse_at manifest_path
read_manifest json files path = elim (files.stat path) [
  | none ↦ failed no_file
  | some is_dir ↦ parse_at json files (manifest_path path is_dir)
]
