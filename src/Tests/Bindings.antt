-- ===== src/Tests/Bindings.antt =====
-- A domain of a project that is live on a machine with an empty hosts file.
use Prim.Native.Char.{code}
use alresia_voltpanel.Prelude.{true, none, some, [], ◌∷◌, ◌≡◌, refl}
use alresia_voltpanel.Prelude.Int.{pos, negsuc}
use alresia_voltpanel.Prelude.Table.{has_key}
use alresia_voltpanel.Domains.Sound.{new_database, new_database-Sound}
use alresia_voltpanel.Hosts.Provider.{HostsFile}
use alresia_voltpanel.Proxy.{new_router}
use alresia_voltpanel.Bindings.{Bindings, Body, World, create_domain_handler, atoi}
use alresia_voltpanel.Bindings.Consistent.{AllOrNothing, create_domain_handler-AllOrNothing}

abbrev world : World
world = record { fold = code; lower = λ s. s; live_port = λ id. some "3000" }

abbrev hosts : HostsFile
hosts = record { content = none; torn = none; reads = true; writes = true }

abbrev bindings : Bindings
bindings = record { db = new_database ("p1" ∷ []); hosts = some hosts; proxy = some new_router }

abbrev body : Body
body = record { hostname = "blog.test"; project_id = "p1"; port = pos 0 }

number : atoi "-12" ≡ some (negsuc 11)
unfolding atoi
number = refl

create_domain_handler-AllOrNothing_example :
    AllOrNothing world bindings "d1" "blog.test"
      (create_domain_handler world bindings "d1" 0 (some body))
unfolding has_key new_database
create_domain_handler-AllOrNothing_example =
    create_domain_handler-AllOrNothing world bindings "d1" 0 body (new_database-Sound ("p1" ∷ []))
      refl
