-- ===== src/Plugins/Host.antt =====
-- ExternalProvider of internal/pluginhost/host.go. The subprocess is what the pipes answer, turn by
-- turn; `sent` and `received` keep the lines that went through them.
use alresia_voltpanel.Prelude.{
  ℕ, String, Bool, true, false, not, Option, none, some, List, [], ◌∷◌, ◌++◌, str_eq, if◌then◌else◌,
  Outcome, failed, done,
}
use alresia_voltpanel.Prelude.Dict.{Dict}
use alresia_voltpanel.Prelude.Paths.{FilePath}
use alresia_voltpanel.Plugins.Protocol.{
  Handshake, Request, Response, Manifest, RuntimeVersion, Json, Files, ManifestError,
  is_supported_version, read_manifest,
}

pub record ExternalProvider : Type 0 where
  pub manifest : Manifest
  pub handshake : Handshake
  pub dir : FilePath
  pub closed : Bool
  pub stdin_closed : Bool
  pub killed : Bool
  pub sent : List Request
  pub received : List String

-- what the select of readLineLocked sees first
pub data Event : Type 0 where
  line : String → Event
  read_error : Event
  eof : Event
  timed_out : Event
  context_done : Event

pub data ReadError : Type 0 where
  reading : ReadError
  closed_output : ReadError
  no_response : ReadError
  canceled : ReadError

pub data CallError : Type 0 where
  is_closed : CallError
  bad_params : CallError
  bad_request : CallError
  not_written : CallError
  not_read : ReadError → CallError
  malformed : CallError
  other_id : CallError
  reported : String → CallError
  bad_result : CallError

-- the new id, whether the write succeeds, and what the read sees
pub record Turn : Type 0 where
  pub id : String
  pub writes : Bool
  pub event : Event

unfoldable pub close : ExternalProvider → ExternalProvider
close e = if e.closed then e else record e { closed = true; stdin_closed = true; killed = true }

unfoldable pub kind : ExternalProvider → String
kind e = e.handshake.name

unfoldable pub read_line : Event → Outcome ReadError String
read_line (line text) = done text
read_line read_error = failed reading
read_line eof = failed closed_output
read_line timed_out = failed no_response
read_line context_done = failed canceled

-- the answer to a request with that id, and whether it ends the process
unfoldable pub judge : String → Option Response → Bool × Outcome CallError String
judge id none = (true, failed malformed)
judge id (some r) =
    if not (str_eq r.id id)
    then (true, failed other_id)
    else if not (str_eq r.error "")
    then (false, failed (reported r.error))
    else (false, done r.result)

unfoldable pub settle :
    ExternalProvider → Bool × Outcome CallError String → ExternalProvider × Outcome CallError String
unfolding close
settle e (ends, answer) = (if ends then close e else e, answer)

unfoldable pub await_response :
    Json → ExternalProvider → Turn → ExternalProvider × Outcome CallError String
unfolding read_line settle judge close
await_response json e t = elim (read_line t.event) [
  | failed err ↦ (close e, failed (not_read err))
  | done text ↦
      settle (record e { received = e.received ++ text ∷ [] })
        (judge t.id (json.parse_response text))
]

unfoldable pub send :
    Json → ExternalProvider → Turn → Request → ExternalProvider × Outcome CallError String
unfolding await_response close
send json e t request = elim (json.print_request request) [
  | none ↦ (e, failed bad_request)
  | some text ↦
      if t.writes
      then await_response json (record e { sent = e.sent ++ request ∷ [] }) t
      else (close e, failed not_written)
]

-- `none` where the marshalling fails
unfoldable pub raw_params : Json → Option (Dict String String) → Option String
raw_params json none = some ""
raw_params json (some params) = json.print_params params

unfoldable pub call :
    Json
    → ExternalProvider
    → Turn
    → String
    → Option (Dict String String)
    → ExternalProvider × Outcome CallError String
unfolding raw_params send
call json e t method params =
    let answer : ExternalProvider × Outcome CallError String = elim (raw_params json params) [
      | none ↦ (e, failed bad_params)
      | some raw ↦ send json e t (record { id = t.id; method = method; params = raw })
    ] in
    if e.closed then (e, failed is_closed) else answer

unfoldable decode_versions :
    Json → Outcome CallError String → Outcome CallError (List RuntimeVersion)
decode_versions json (failed err) = failed err
decode_versions json (done text) =
    let versions : Outcome CallError (List RuntimeVersion) = elim (json.parse_versions text) [
      | none ↦ failed bad_result
      | some vs ↦ done vs
    ] in
    if str_eq text "" then done [] else versions

unfoldable pub detect_installed :
    Json → ExternalProvider → Turn → ExternalProvider × Outcome CallError (List RuntimeVersion)
unfolding call decode_versions
detect_installed json e t =
    let (e', answer) = call json e t "DetectInstalled" none in (e', decode_versions json answer)

unfoldable the_error : Outcome CallError String → Option CallError
the_error (failed err) = some err
the_error (done text) = none

unfoldable version_call :
    String → Json → ExternalProvider → Turn → String → ExternalProvider × Option CallError
unfolding call the_error
version_call method json e t version =
    let (e', answer) = call json e t method (some (("version", version) ∷ [])) in
    (e', the_error answer)

unfoldable pub install :
    Json → ExternalProvider → Turn → String → ExternalProvider × Option CallError
unfolding version_call
install = version_call "Install"

unfoldable pub remove :
    Json → ExternalProvider → Turn → String → ExternalProvider × Option CallError
unfolding version_call
remove = version_call "Remove"

unfoldable pub set_default :
    Json → ExternalProvider → Turn → String → ExternalProvider × Option CallError
unfolding version_call
set_default = version_call "SetDefault"

pub data LoadError : Type 0 where
  bad_manifest : ManifestError → LoadError
  not_started : LoadError
  no_handshake : ReadError → LoadError
  bad_handshake : LoadError
  unsupported_version : ℕ → LoadError

-- whether the pipes and the process are made, and what the first read sees
pub record Launch : Type 0 where
  pub starts : Bool
  pub event : Event

abbrev pub no_handshake_yet : Handshake
no_handshake_yet = record { protocol_version = 0; kind = ""; name = ""; methods = [] }

unfoldable pub started : Manifest → FilePath → ExternalProvider
started m dir = record {
  manifest = m;
  handshake = no_handshake_yet;
  dir = dir;
  closed = false;
  stdin_closed = false;
  killed = false;
  sent = [];
  received = [];
}

unfoldable pub read_handshake : Json → Event → Outcome LoadError Handshake
unfolding read_line
read_handshake json event = elim (read_line event) [
  | failed err ↦ failed (no_handshake err)
  | done text ↦ elim (json.parse_handshake text) [ none ↦ failed bad_handshake | some h ↦ done h ]
]

-- the provider as it is left, and the answer
unfoldable pub greet :
    ExternalProvider → Outcome LoadError Handshake → ExternalProvider × Option LoadError
unfolding close
greet e (failed err) = (close e, some err)
greet e (done h) =
    if is_supported_version h.protocol_version
    then (record e { handshake = h }, none)
    else (close e, some (unsupported_version h.protocol_version))

-- the process that was started, if one was, with the error
unfoldable pub load_extension :
    Json → Files → Launch → FilePath → Option ExternalProvider × Option LoadError
unfolding greet
load_extension json files launch path = elim (read_manifest json files path) [
  | failed err ↦ (none, some (bad_manifest err))
  | done (m, dir) ↦
      let (e, answer) = greet (started m dir) (read_handshake json launch.event) in
      if launch.starts then (some e, answer) else (none, some not_started)
]
