-- ===== src/Bindings/Consistent.antt =====
-- What POST /api/v1/domains of internal/api/v1/domains.go leaves behind.
use alresia_voltpanel.Prelude.{
  ℕ, ◌*◌, ◌/◌, concat, String, true, false, Option, none, some, List, [], ◌∷◌, ◌≡◌, refl, ap, sym,
  ◌∙◌, subst, inl, inr, ◌⊎◌, str_eq, str_eq_refl, on_if, on_option, Outcome, failed, done,
  Outcome-cases,
}
use alresia_voltpanel.Prelude.Int.{ℤ}
use alresia_voltpanel.Prelude.Table.{has_key}
use alresia_voltpanel.Domains.{
  Database, Domain, DomainError, not_found, hostname_taken, no_hostname, no_certificate_id,
  database_error, row_id, domain_row, create_domain, get_domain, delete_domain, set_port,
}
use alresia_voltpanel.Domains.Sound.{Sound}
use alresia_voltpanel.Domains.Lookups.{new_domain, create_domain-inserts, create_domain-get}
use alresia_voltpanel.Hosts.Provider
use alresia_voltpanel.Hosts.Provider.{
  HostsFile, HostsError, Conflict, Adding, absent, foreign, already, changed, Line,
  normalize_hostname, read, write, settle, search, add,
}
use alresia_voltpanel.Proxy
use alresia_voltpanel.Proxy.{Router}
use alresia_voltpanel.Storage.{second}
use alresia_voltpanel.Bindings.{
  Bindings, Body, Reply, created, found, deleted, conflicting, bad_request, taken, missing,
  internal_error, World, project_service_id, atoi, refuse_on, check_conflicts, refusal,
  add_to_hosts, with_port, route_project, bind_project, finish_binding, bind_created,
  create_domain_handler,
}
use alresia_voltpanel.Bindings.Undone.{
  add-TornOnError, delete_new, Inserts, insert_domain-Inserts, Named, set_port-Named,
  create_domain_failed, new_row_id,
}

-- Either the domain is registered, found and in the hosts file, or nothing has changed.
pub record Bound (world : World) (b : Bindings) (id hostname : String) (b' : Bindings) (d : Domain)
    : Type 0 where
  pub row : Domain
  pub found_again : get_domain b'.db id ≡ done row
  pub same_name : (row.hostname ≡ hostname) × (d.hostname ≡ hostname)
  pub in_hosts :
      (f : HostsFile)
      → b.hosts ≡ some f
      → (f' : HostsFile) × (add world.fold f hostname ≡ (f', none)) × (b'.hosts ≡ some f')

-- The hosts file could not be written, and holds what that write left of it; the rest is as it was.
abbrev pub TornHosts : Bindings → Bindings → Type 0
TornHosts b b' =
    (f : HostsFile) × (b.hosts ≡ some f)
    × (f.writes ≡ false)
    × (b' ≡ record b { hosts = some (record f { content = f.torn }) })

abbrev pub AllOrNothing : World → Bindings → String → String → Bindings × Reply → Type 0
AllOrNothing world b id hostname (b', created d) = Bound world b id hostname b' d
AllOrNothing world b id hostname (b', found ds) = b' ≡ b
AllOrNothing world b id hostname (b', deleted) = b' ≡ b
AllOrNothing world b id hostname (b', conflicting cs) = b' ≡ b
AllOrNothing world b id hostname (b', bad_request) = (b' ≡ b) ⊎ TornHosts b b'
AllOrNothing world b id hostname (b', taken) = b' ≡ b
AllOrNothing world b id hostname (b', missing) = b' ≡ b
AllOrNothing world b id hostname (b', internal_error) = b' ≡ b

refused :
    (world : World) (b : Bindings) (id hostname : String) (e : DomainError)
    → AllOrNothing world b id hostname (b, refusal e)
unfolding refusal
refused world b id hostname not_found = inl refl
refused world b id hostname hostname_taken = refl
refused world b id hostname no_hostname = inl refl
refused world b id hostname no_certificate_id = inl refl
refused world b id hostname database_error = inl refl

module _ (world : World) (b b' : Bindings) (id hostname : String) (d : Domain) where
  with_port-Bound :
      (port : Option ℤ)
      → d.id ≡ id
      → Bound world b id hostname b' d
      → AllOrNothing world b id hostname (with_port b' d port)
  unfolding with_port
  with_port-Bound none e h = h
  with_port-Bound (some port) e h =
      let (row, g, n) =
        subst (λ i. Named (set_port b'.db i port).0 id hostname) (sym e)
          (set_port-Named b'.db id hostname port (h.row, h.found_again, h.same_name.0)) in
      record { row = row; found_again = g; same_name = (n, h.same_name.1); in_hosts = h.in_hosts }

  routed :
      (proxy : Option Router)
      → Bound world b id hostname b' d
      → Bound world b id hostname (record b' { proxy = proxy }) d
  routed proxy h = record {
    row = h.row;
    found_again = h.found_again;
    same_name = h.same_name;
    in_hosts = h.in_hosts;
  }

module _ (world : World) (b b' : Bindings) (id hostname : String) (d : Domain) where
  routed_port :
      (proxy : Option Router) (port : Option ℤ)
      → d.id ≡ id
      → Bound world b id hostname b' d
      → AllOrNothing world b id hostname (with_port (record b' { proxy = proxy }) d port)
  routed_port proxy port e h =
      with_port-Bound world b (record b' { proxy = proxy }) id hostname d port e
        (routed world b b' id hostname d proxy h)

  bind_project-Bound :
      d.id ≡ id
      → Bound world b id hostname b' d
      → AllOrNothing world b id hostname (bind_project world b' d)
  unfolding bind_project route_project
  bind_project-Bound e h =
      let P : Bindings × Reply → Type 0 = AllOrNothing world b id hostname in
      on_if P (str_eq d.project_id "") _ _ (λ _. h)
        (λ _.
          on_option P b'.proxy _ _ (λ _. h)
            (λ r _.
              on_option P (world.live_port (project_service_id d.project_id)) _ _ (λ _. h)
                (λ text _.
                  on_if P (str_eq text "") _ _ (λ _. h)
                    (λ _.
                      routed_port
                        (some (Proxy.set world.lower r d.hostname (concat "127.0.0.1:" text)))
                        (atoi text) e h))))

file_or : HostsFile → Option HostsFile → HostsFile
file_or f none = f
file_or f (some g) = g

-- an Add that fails, with the row taken away
left_by_add :
    (world : World) (b : Bindings) (id hostname : String) (f : HostsFile) (db : Database)
    (e : HostsError)
    → db ≡ b.db
    → b.hosts ≡ some f
    → (add world.fold f hostname).1 ≡ some e
    → AllOrNothing world b id hostname
        (record b { db = db; hosts = some (add world.fold f hostname).0 }, bad_request)
left_by_add world b id hostname f db e gone some_is failed_is =
    let swap = λ (g : HostsFile). record b { db = db; hosts = some g } in
    elim (add-TornOnError world.fold f hostname e failed_is) [
      | inl kept ↦ inl (
          ap swap kept
          ∙ ap (λ x. record b { db = x; hosts = some f }) gone
          ∙ ap (λ x. record b { hosts = x }) (sym some_is))
      | inr (w, torn) ↦ inr (
        f,
        some_is,
        w,
        ap swap torn
            ∙ ap (λ x. record b { db = x; hosts = some (record f { content = f.torn }) }) gone,
      )
    ]

add_to_hosts-AllOrNothing :
    (world : World) (b : Bindings) (id : String) (now : ℕ) (body : Body) (db : Database)
    (d : Domain)
    → Sound b.db
    → has_key row_id id b.db.domains ≡ false
    → create_domain b.db id now body.hostname body.project_id body.port ≡ (db, done d)
    → AllOrNothing world b id body.hostname
        (finish_binding world d (add_to_hosts world (record b { db = db }) d body.hostname))
unfolding add_to_hosts finish_binding file_or
add_to_hosts-AllOrNothing world b id now body db d ok fresh h =
    let (same_id, name, _, _, got) =
      create_domain-get b.db db id now body.hostname body.project_id body.port d h in
    let (same, inserted) =
      create_domain-inserts b.db db id now body.hostname body.project_id body.port d h in
    let new : Domain = new_domain id now body.hostname body.project_id body.port in
    let (up, shape) =
      subst (Inserts b.db (domain_row new)) inserted
        (insert_domain-Inserts b.db (domain_row new)) in
    let row : Domain = record d { created_at = d.created_at / second * second } in
    let again : get_domain db id ≡ done row = got id ∙ rw (str_eq_refl id) refl in
    let P : Bindings × Option Reply → Type 0 =
      λ r. AllOrNothing world b id body.hostname (finish_binding world d r) in
    on_option P b.hosts _ _
      (λ none_is.
        bind_project-Bound world b (record b { db = db }) id body.hostname d same_id
          (record {
            row = row;
            found_again = again;
            same_name = (name, name);
            in_hosts = λ f some_is. let bad : none ≡ some f = sym none_is ∙ some_is in cc;
          }))
      (λ f some_is.
        on_option P (add world.fold f body.hostname).1 _ _
          (λ ok_is.
            bind_project-Bound world b
              (record b { db = db; hosts = some (add world.fold f body.hostname).0 }) id
              body.hostname d same_id
              (record {
                row = row;
                found_again = again;
                same_name = (name, name);
                in_hosts = λ g some_g.
                    subst
                      (λ k.
                        (f' : HostsFile) × (add world.fold k body.hostname ≡ (f', none))
                        × (some (add world.fold f body.hostname).0 ≡ some f'))
                      (ap (file_or f) (sym some_is ∙ some_g))
                      (
                        (add world.fold f body.hostname).0,
                        ap (λ o. ((add world.fold f body.hostname).0, o)) ok_is,
                        refl,
                      );
              }))
          (λ e failed_is.
            let gone : (delete_domain db d.id).0 ≡ b.db =
              ap (λ i. (delete_domain db i).0) same_id
              ∙ ap (λ x. (delete_domain x id).0) shape
              ∙ delete_new b.db (domain_row new) id ok fresh (new_row_id new) up in
            left_by_add world b id body.hostname f (delete_domain db d.id).0 e gone some_is
              failed_is))

bind_created-AllOrNothing :
    (world : World) (b : Bindings) (id : String) (now : ℕ) (body : Body)
    → Sound b.db
    → has_key row_id id b.db.domains ≡ false
    → AllOrNothing world b id body.hostname (
        bind_created world b body.hostname
          (create_domain b.db id now body.hostname body.project_id body.port))
unfolding bind_created
bind_created-AllOrNothing world b id now body ok fresh =
    let r : Database × Outcome DomainError Domain =
      create_domain b.db id now body.hostname body.project_id body.port in
    let P : Outcome DomainError Domain → Type 0 =
      λ o. AllOrNothing world b id body.hostname (bind_created world b body.hostname (r.0, o)) in
    elim (Outcome-cases r.1) [
      | inl (e, f) ↦
          let same : r.0 ≡ b.db =
            create_domain_failed b.db id now body.hostname body.project_id body.port e f in
          subst P (sym f) (
            subst (λ db. AllOrNothing world b id body.hostname (record b { db = db }, refusal e))
              (sym same) (refused world b id body.hostname e))
      | inr (d, f) ↦
          subst P (sym f)
            (add_to_hosts-AllOrNothing world b id now body r.0 d ok fresh (ap (λ o. (r.0, o)) f))
    ]

-- the answers of the check of conflicts refuse
abbrev Refusal : World → Bindings → String → String → Option Reply → Type 0
Refusal world b id hostname none = true ≡ true
Refusal world b id hostname (some reply) = AllOrNothing world b id hostname (b, reply)

refuse_on-Refusal :
    (world : World) (b : Bindings) (id hostname : String) (o : Outcome HostsError (List Conflict))
    → Refusal world b id hostname (refuse_on o)
unfolding refuse_on
refuse_on-Refusal world b id hostname (failed e) = inl refl
refuse_on-Refusal world b id hostname (done []) = refl
refuse_on-Refusal world b id hostname (done (c ∷ cs)) = refl

check_conflicts-Refusal :
    (world : World) (b : Bindings) (id hostname : String)
    → Refusal world b id hostname (check_conflicts world b hostname)
unfolding check_conflicts
check_conflicts-Refusal world b id hostname =
    on_option (Refusal world b id hostname) b.hosts _ _ (λ _. refl)
      (λ f _. refuse_on-Refusal world b id hostname (Provider.conflicts world.fold f hostname))

-- For a sound database that stays reachable or not throughout and a new id, `POST
-- /api/v1/domains` either answers with the domain, which is then found under its id with its
-- hostname, after an Add that succeeded where there is a hosts file; or gives another answer and
-- leaves the tables and the routes as they were, and the hosts file too, but where it could not
-- be written: then the answer is 400 and the file holds what that write left of it.
pub create_domain_handler-AllOrNothing :
    (world : World) (b : Bindings) (id : String) (now : ℕ) (body : Body)
    → Sound b.db
    → has_key row_id id b.db.domains ≡ false
    → AllOrNothing world b id body.hostname (create_domain_handler world b id now (some body))
unfolding create_domain_handler bind_created
create_domain_handler-AllOrNothing world b id now body ok fresh =
    let P : Bindings × Reply → Type 0 = AllOrNothing world b id body.hostname in
    on_if P (str_eq body.hostname "") _ _ (λ _. inl refl)
      (λ _.
        on_option P (check_conflicts world b body.hostname) _ _
          (λ _. bind_created-AllOrNothing world b id now body ok fresh)
          (λ reply e.
            subst (Refusal world b id body.hostname) e
              (check_conflicts-Refusal world b id body.hostname)))
