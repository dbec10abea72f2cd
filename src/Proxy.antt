-- ===== src/Proxy.antt =====
-- internal/proxy/router.go: the table of routes. strings.ToLower is an argument, `lower`; the
-- reverse proxy of net/http/httputil is not modelled, only the address that it is given.
use Prim.Native.Char.{code}
use Prim.Native.String.{String}
use alresia_voltpanel.Prelude.{◌||◌, Option, [], str_eq, if◌then◌else◌, ◌==◌}
use alresia_voltpanel.Prelude.Int.{ℤ, pos}
use alresia_voltpanel.Prelude.Dict
use alresia_voltpanel.Prelude.Dict.{Dict, get, put, string_key}

pub record Router : Type 0 where
  pub targets : Dict String String
  pub port : ℤ

abbrev pub new_router : Router
new_router = record { targets = []; port = pos 0 }

-- the part of a Host header before the first colon
unfoldable pub host_only : String → String
host_only String.[] = ""
host_only (String.◌∷◌ c h) =
    let rest = host_only h in if code c == 58 then "" else String.◌∷◌ c rest

module _ (lower : String → String) where
  unfoldable pub set : Router → String → String → Router
  unfolding put
  set r hostname addr =
      if str_eq hostname "" || str_eq addr ""
      then r
      else record r { targets = put (lower hostname) addr r.targets }

  unfoldable pub remove : Router → String → Router
  unfolding Dict.remove
  remove r hostname = record r { targets = Dict.remove (lower hostname) r.targets }

  unfoldable pub lookup : Router → String → Option String
  unfolding get
  lookup r hostname = get (lower hostname) r.targets

  -- where Handler sends a request with that Host header, `none` for the answer 404
  unfoldable pub target_of : Router → String → Option String
  unfolding lookup host_only
  target_of r host = lookup r (host_only host)

unfoldable pub set_port : Router → ℤ → Router
set_port r port = record r { port = port }

abbrev pub routes : Router → Dict String String
routes r = r.targets
