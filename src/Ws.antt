-- ===== src/Ws.antt =====
-- internal/ws/ws.go: the hub that sends what the daemon emits to the browsers. A connection is a
-- number, and what it does before it is let in is a `Handshake`; Verify of the session at that
-- instant is an argument. Run takes one message at a time while it holds the mutex, so that a turn
-- is one step; a write that fails is ignored.
pub mod Events
pub mod Admission
use alresia_voltpanel.Prelude.{
  ℕ, ◌≡◌, String, Bool, true, false, not, ◌&&◌, ◌||◌, Option, none, some, List, [], ◌∷◌, ◌++◌, map,
  length, ltb, str_eq, if◌then◌else◌, ◌==◌, keep,
}

abbrev pub broadcast_size : ℕ
broadcast_size = 1024

-- `session` is whether there is a SessionAuth
pub record Hub : Type 0 where
  pub clients : List ℕ
  pub broadcast : List String
  pub token : String
  pub dev : Bool
  pub session : Bool

pub record AuthMessage : Type 0 where
  pub type : String
  pub token : String

-- the first message of a client, if it comes in time
pub data FirstMessage : Type 0 where
  unread : FirstMessage
  undecoded : FirstMessage
  says : AuthMessage → FirstMessage

pub record Handshake : Type 0 where
  pub connection : ℕ
  pub upgraded : Bool
  pub cookie : Option String
  pub first : FirstMessage

unfoldable pub new_hub : String → Bool → Bool → Hub
new_hub token dev session = record {
  clients = [];
  broadcast = [];
  token = token;
  dev = dev;
  session = session;
}

unfoldable pub authenticate_request : (String → Bool) → Hub → Handshake → Bool
authenticate_request verify h r =
    if h.dev || not h.session
    then false
    else elim r.cookie [ none ↦ false | some cookie ↦ verify cookie ]

unfoldable pub authenticate_first : Hub → FirstMessage → Bool
authenticate_first h unread = false
authenticate_first h undecoded = false
authenticate_first h (says auth) =
    if not (str_eq auth.type "auth") then false else str_eq auth.token h.token

unfoldable pub authenticate : Hub → Handshake → Bool
unfolding authenticate_first
authenticate h r = if h.dev then true else authenticate_first h r.first

-- delete(h.clients, c), when the connection is closed or cannot be read
unfoldable pub leave : Hub → ℕ → Hub
leave h c = record h { clients = keep (λ d. not (d == c)) h.clients }

unfoldable pub serve_ws : (String → Bool) → Hub → Handshake → Hub
unfolding authenticate_request authenticate leave
serve_ws verify h r =
    if not r.upgraded
    then h
    else if not (authenticate_request verify h r) && not (authenticate h r)
    then h
    else record h { clients = r.connection ∷ (leave h r.connection).clients }

unfoldable pub emit : Hub → String → Hub
emit h b =
    if ltb (length h.broadcast) broadcast_size
    then record h { broadcast = h.broadcast ++ b ∷ [] }
    else h

-- One turn of Run, with what it writes.
unfoldable pub run_turn : Hub → List String → Hub × List (ℕ × String)
run_turn h [] = (h, [])
run_turn h (b ∷ rest) = (record h { broadcast = rest }, map (λ c. (c, b)) h.clients)
