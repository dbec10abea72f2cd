-- ===== src/Bindings.antt =====
-- internal/api/v1/domains.go: the handlers that bind a hostname in the table of domains, in the hosts
-- file and in the reverse proxy. A body is what the JSON decoder gives; the audit log is not
-- modelled.

pub mod Undone
pub mod Consistent
use Prim.Native.Char.{Char, code}
use Prim.Native.String
use alresia_voltpanel.Prelude.{
  ℕ, zero, suc, ◌+◌, ◌-◌, ◌*◌, ◌^◌, String, Bool, true, false, not, ◌&&◌, ◌||◌, Option, none, some,
  List, [], ◌∷◌, concat, str_eq, if◌then◌else◌, ◌==◌, ltb, leb, Outcome, failed, done,
}
use alresia_voltpanel.Prelude.Int.{ℤ, pos, negsuc}
use alresia_voltpanel.Domains.{
  Domain, Database, DomainError, not_found, hostname_taken, create_domain, get_domain, list_domains,
  delete_domain, set_port,
}
use alresia_voltpanel.Hosts.Provider
use alresia_voltpanel.Hosts.Provider.{HostsFile, HostsError, Conflict}
use alresia_voltpanel.Proxy
use alresia_voltpanel.Proxy.{Router}

-- what a handler finds in Deps: the provider and the router may be nil
pub record Bindings : Type 0 where
  pub db : Database
  pub hosts : Option HostsFile
  pub proxy : Option Router

pub record Body : Type 0 where
  pub hostname : String
  pub project_id : String
  pub port : ℤ

pub data Reply : Type 0 where
  created : Domain → Reply
  found : List Domain → Reply
  deleted : Reply
  conflicting : List Conflict → Reply
  bad_request : Reply
  taken : Reply
  missing : Reply
  internal_error : Reply

-- the Unicode tables of strings, and PORT in the environment of a live service
pub record World : Type 0 where
  pub fold : Char → ℕ
  pub lower : String → String
  pub live_port : String → Option String

-- digits, from the left, onto the number before them
unfoldable pub digits_onto : ℕ → String → Option ℕ
digits_onto n String.[] = some n
digits_onto n (String.◌∷◌ c s) =
    let rest = digits_onto (n * 10 + (code c - 48)) s in
    if leb 48 (code c) && leb (code c) 57 then rest else none

unfoldable unsigned : String → Option ℕ
unfolding digits_onto
unsigned s = if str_eq s "" then none else digits_onto 0 s

unfoldable negated : ℕ → Option ℤ
negated zero = some (pos 0)
negated (suc n) = if ltb n (2 ^ 63) then some (negsuc n) else none

-- strconv.Atoi
unfoldable pub atoi : String → Option ℤ
unfolding unsigned negated
atoi String.[] = none
atoi (String.◌∷◌ c s) =
    let plain : Option ℕ = if code c == 43 then unsigned s else unsigned (String.◌∷◌ c s) in
    let positive : Option ℤ = elim plain [
      | none ↦ none
      | some n ↦ if ltb n (2 ^ 63) then some (pos n) else none
    ] in
    let negative : Option ℤ = elim (unsigned s) [ none ↦ none | some n ↦ negated n ] in
    if code c == 45 then negative else positive

abbrev pub project_service_id : String → String
project_service_id project_id = concat "project:" project_id

unfoldable pub refuse_on : Outcome HostsError (List Conflict) → Option Reply
refuse_on (failed e) = some bad_request
refuse_on (done []) = none
refuse_on (done (c ∷ cs)) = some (conflicting (c ∷ cs))

-- the conflicts that stop the handler, with the answer
unfoldable pub check_conflicts : World → Bindings → String → Option Reply
unfolding refuse_on
check_conflicts world b hostname = elim b.hosts [
  | none ↦ none
  | some f ↦ refuse_on (Provider.conflicts world.fold f hostname)
]

unfoldable pub refusal : DomainError → Reply
refusal hostname_taken = taken
refusal e = bad_request

-- Add, with the row taken away again when it fails
unfoldable pub add_to_hosts : World → Bindings → Domain → String → Bindings × Option Reply
add_to_hosts world b d hostname = elim b.hosts [
  | none ↦ (b, none)
  | some f ↦
      let (f', e) = Provider.add world.fold f hostname in
      elim e [
        | none ↦ (record b { hosts = some f' }, none)
        | some x ↦
            (record b { db = (delete_domain b.db d.id).0; hosts = some f' }, some bad_request)
      ]
]

-- the port of the environment goes into the row and the answer when it is a number
unfoldable pub with_port : Bindings → Domain → Option ℤ → Bindings × Reply
with_port b d none = (b, created d)
with_port b d (some port) =
    (record b { db = (set_port b.db d.id port).0 }, created (record d { port = port }))

unfoldable pub route_project : World → Bindings → Domain → Router → Bindings × Reply
unfolding with_port
route_project world b d r = elim (world.live_port (project_service_id d.project_id)) [
  | none ↦ (b, created d)
  | some text ↦
      if str_eq text ""
      then (b, created d)
      else with_port
          (record b {
            proxy = some (Proxy.set world.lower r d.hostname (concat "127.0.0.1:" text));
          })
          d (atoi text)
]

unfoldable pub bind_project : World → Bindings → Domain → Bindings × Reply
unfolding route_project
bind_project world b d =
    let routed : Bindings × Reply = elim b.proxy [
      | none ↦ (b, created d)
      | some r ↦ route_project world b d r
    ] in
    if str_eq d.project_id "" then (b, created d) else routed

unfoldable pub finish_binding : World → Domain → Bindings × Option Reply → Bindings × Reply
unfolding bind_project
finish_binding world d (b, some reply) = (b, reply)
finish_binding world d (b, none) = bind_project world b d

unfoldable pub bind_created :
    World → Bindings → String → Database × Outcome DomainError Domain → Bindings × Reply
unfolding add_to_hosts finish_binding refusal
bind_created world b hostname (db, failed e) = (record b { db = db }, refusal e)
bind_created world b hostname (db, done d) =
    finish_binding world d (add_to_hosts world (record b { db = db }) d hostname)

-- POST /api/v1/domains, with the new id and the time
unfoldable pub create_domain_handler :
    World → Bindings → String → ℕ → Option Body → Bindings × Reply
unfolding check_conflicts bind_created
create_domain_handler world b id now none = (b, bad_request)
create_domain_handler world b id now (some body) =
    let bound : Bindings × Reply = elim (check_conflicts world b body.hostname) [
      | some reply ↦ (b, reply)
      | none ↦
          bind_created world b body.hostname
            (create_domain b.db id now body.hostname body.project_id body.port)
    ] in
    if str_eq body.hostname "" then (b, bad_request) else bound

-- writeDomainError
unfoldable pub write_domain_error : DomainError → Reply
write_domain_error not_found = missing
write_domain_error e = bad_request

unfoldable list_domains_handler : Bindings → Reply
list_domains_handler b = elim (list_domains b.db) [ failed e ↦ internal_error | done ds ↦ found ds ]

unfoldable remove_from_hosts : World → Bindings → String → Bindings × Option HostsError
remove_from_hosts world b hostname = elim b.hosts [
  | none ↦ (b, none)
  | some f ↦
      let (f', e) = Provider.remove world.fold f hostname in (record b { hosts = some f' }, e)
]

unfoldable remove_route : World → Option Router → String → Option Router
remove_route world none hostname = none
remove_route world (some r) hostname = some (Proxy.remove world.lower r hostname)

unfoldable drop_row : Bindings → String → Bindings × Reply
unfolding write_domain_error
drop_row b id =
    let (db, e) = delete_domain b.db id in
    (record b { db = db }, elim e [ none ↦ deleted | some x ↦ write_domain_error x ])

unfoldable delete_unbound :
    World → String → String → Bindings × Option HostsError → Bindings × Reply
unfolding remove_route drop_row
delete_unbound world id hostname (b, some e) = (b, bad_request)
delete_unbound world id hostname (b, none) =
    drop_row (record b { proxy = remove_route world b.proxy hostname }) id

-- DELETE /api/v1/domains/:id
unfoldable pub delete_domain_handler : World → Bindings → String → String → Bindings × Reply
unfolding delete_unbound remove_from_hosts write_domain_error
delete_domain_handler world b id confirm =
    let dropped : Bindings × Reply = elim (get_domain b.db id) [
      | failed e ↦ (b, write_domain_error e)
      | done d ↦ delete_unbound world id d.hostname (remove_from_hosts world b d.hostname)
    ] in
    if str_eq confirm "true" then dropped else (b, bad_request)

unfoldable conflicts_reply : Outcome HostsError (List Conflict) → Reply
conflicts_reply (failed e) = bad_request
conflicts_reply (done cs) = conflicting cs

-- GET /api/v1/domains/:id/conflicts
unfoldable pub domain_conflicts : World → Bindings → String → Reply
unfolding write_domain_error conflicts_reply
domain_conflicts world b id = elim (get_domain b.db id) [
  | failed e ↦ write_domain_error e
  | done d ↦ elim b.hosts [
    | none ↦ conflicting []
    | some f ↦ conflicts_reply (Provider.conflicts world.fold f d.hostname)
  ]
]
