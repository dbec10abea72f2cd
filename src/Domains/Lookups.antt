-- ===== src/Domains/Lookups.antt =====
-- What GetDomain of internal/domain/domainname/domainname.go returns after each change.
use alresia_voltpanel.Prelude.{
  ℕ, ◌*◌, ◌/◌, ◌≡◌, ◌∙◌, refl, sym, ap, String, true, false, not, ◌||◌, Option, none, some, str_eq,
  eq_iff, arith, Bool-cases, Option-cases, inl, inr, if◌then◌else◌, on_if, Outcome, done, failed,
}
use alresia_voltpanel.Prelude.Int.{ℤ, pos, negsuc, is_zero}
use alresia_voltpanel.Prelude.Table.{find_by, has_key, find_by-append, find_by-change, find_by-none}
use alresia_voltpanel.Storage.{second}
use alresia_voltpanel.Domains.{
  Database, DomainError, Domain, DomainRow, row_id, row_hostname, is_project, insert_domain,
  create_domain, get_domain, update_domain, set_port, scan_domain, domain_row, nullable_string,
  nullable_port, flag,
}

port_back : (p : ℤ) → (elim (nullable_port p) [ none ↦ pos 0 | some q ↦ q ]) ≡ p
unfolding nullable_port is_zero
port_back (pos n) = ground arith
port_back (negsuc n) = refl

string_back : (s : String) → (elim (nullable_string s) [ none ↦ "" | some t ↦ t ]) ≡ s
unfolding nullable_string
string_back s = ground (arith, eq_iff s "")

-- The columns of a new domain give the domain back, but for the fraction of its second.
scan_domain-domain_row :
    (d : Domain)
    → d.ssl_enabled ≡ false
    → d.enabled ≡ true
    → scan_domain (domain_row d) ≡ record d { created_at = d.created_at / second * second }
unfolding scan_domain domain_row flag
scan_domain-domain_row d off on =
    ground (arith, port_back d.port, string_back d.project_id, off, on)

-- The lookups after a new row.
abbrev Inserted : Database → Database → DomainRow → Type 0
Inserted db db' r =
    (db.is_up ≡ true)
    × (db'.is_up ≡ true)
    × ((v : String)
        → find_by row_id v db'.domains
          ≡ (if str_eq r.id v then some r else find_by row_id v db.domains))

insert_domain-find :
    (db db' : Database) (r : DomainRow) → insert_domain db r ≡ (db', none) → Inserted db db' r
unfolding insert_domain
insert_domain-find db db' r =
    let P : Database × Option DomainError → Type 0 = λ o. o ≡ (db', none) → Inserted db db' r in
    on_if P (not db.is_up) _ _ (λ _ h. cc)
      λ up.
        on_if P (has_key row_id r.id db.domains || has_key row_hostname r.hostname db.domains) _ _
          (λ _ h. cc)
          λ fresh.
            on_if P (not (is_project db.projects r.project_id)) _ _ (λ _ h. cc)
              λ known h. (
                ground (arith, up),
                ground (arith, up, h),
                λ v. ground (
                  arith,
                  ap (λ (o : Database × Option DomainError). find_by row_id v o.0.domains) h,
                  find_by-append row_id v db.domains r,
                  find_by-none row_id v db.domains,
                  eq_iff r.id v,
                  fresh,
                ),
              )

abbrev pub new_domain : String → ℕ → String → String → ℤ → Domain
new_domain id now hostname project_id port = record {
  id = id;
  hostname = hostname;
  project_id = project_id;
  port = port;
  provider = "hosts";
  ssl_enabled = false;
  enabled = true;
  created_at = now;
}

pub create_domain-inserts :
    (db db' : Database) (id : String) (now : ℕ) (hostname project_id : String) (port : ℤ)
    (d : Domain)
    → create_domain db id now hostname project_id port ≡ (db', done d)
    → let new = new_domain id now hostname project_id port in
      (d ≡ new) × (insert_domain db (domain_row new) ≡ (db', none))
unfolding create_domain
create_domain-inserts db db' id now hostname project_id port d =
    let new = new_domain id now hostname project_id port in
    let r = domain_row new in
    let P : Database × Outcome DomainError Domain → Type 0 =
      λ o. o ≡ (db', done d) → (d ≡ new) × (insert_domain db r ≡ (db', none)) in
    on_if P (str_eq hostname "") _ _ (λ _ h. cc)
      λ _ h. elim (Option-cases (insert_domain db r).1) [
        | inl e ↦ (ground (arith, h, e), ground (arith, h, e))
        | inr (x, e) ↦ ground (arith, h, e)
      ]

same_key : (d : Domain) → (domain_row d).id ≡ d.id
unfolding domain_row
same_key d = refl

get_domain-Inserted :
    (db db' : Database) (id : String) (now : ℕ) (hostname project_id : String) (port : ℤ)
    (v : String)
    → let new = new_domain id now hostname project_id port in
      Inserted db db' (domain_row new)
      → get_domain db' v ≡ (
          if str_eq id v
          then done (record new { created_at = now / second * second })
          else get_domain db v)
unfolding get_domain
get_domain-Inserted db db' id now hostname project_id port v (up, up', found) =
    let new = new_domain id now hostname project_id port in
    let back = scan_domain-domain_row new refl refl in
    elim (Bool-cases (str_eq id v)) [
      | inl e ↦ ground (arith, up', found v, same_key new, e, back)
      | inr e ↦ ground (arith, up, up', found v, same_key new, e)
    ]

-- A domain that `CreateDomain` registers is found under its new id as it was registered, but for
-- the fraction of the second of its creation; every other id is answered as before.
pub create_domain-get :
    (db db' : Database) (id : String) (now : ℕ) (hostname project_id : String) (port : ℤ)
    (d : Domain)
    → create_domain db id now hostname project_id port ≡ (db', done d)
    → (d.id ≡ id)
      × (d.hostname ≡ hostname)
      × (d.project_id ≡ project_id)
      × (d.port ≡ port)
      × ((v : String)
          → get_domain db' v ≡ (
              if str_eq id v
              then done (record d { created_at = d.created_at / second * second })
              else get_domain db v))
create_domain-get db db' id now hostname project_id port d h =
    let new = new_domain id now hostname project_id port in
    let (same, inserted) = create_domain-inserts db db' id now hostname project_id port d h in
    let (up, up', found) = insert_domain-find db db' (domain_row new) inserted in
    (
      ap (λ (x : Domain). x.id) same,
      ap (λ (x : Domain). x.hostname) same,
      ap (λ (x : Domain). x.project_id) same,
      ap (λ (x : Domain). x.port) same,
      λ v. rw same (get_domain-Inserted db db' id now hostname project_id port v (up, up', found)),
    )

update_domain-find :
    (db db' : Database) (id : String) (f : DomainRow → DomainRow)
    → ((r : DomainRow) → row_id (f r) ≡ row_id r)
    → update_domain db id f ≡ (db', none)
    → (db.is_up ≡ true)
      × (db'.is_up ≡ true)
      × ((v : String)
          → find_by row_id v db'.domains ≡ (elim (find_by row_id v db.domains) [
            | none ↦ none
            | some a ↦ some (if str_eq id v then f a else a)
          ]))
unfolding update_domain
update_domain-find db db' id f same =
    let P : Database × Option DomainError → Type 0 = λ o.
      o ≡ (db', none)
      → (db.is_up ≡ true)
        × (db'.is_up ≡ true)
        × ((v : String)
            → find_by row_id v db'.domains ≡ (elim (find_by row_id v db.domains) [
              | none ↦ none
              | some a ↦ some (if str_eq id v then f a else a)
            ])) in
    on_if P (not db.is_up) _ _ (λ _ h. cc)
      λ up.
        on_if P (has_key row_id id db.domains) _ _
          (λ _ h. (
            ground (arith, up),
            ground (arith, up, h),
            λ v.
                sym (ap (λ (o : Database × Option DomainError). find_by row_id v o.0.domains) h)
                ∙ find_by-change row_id id v f db.domains same,
          ))
          λ _ h. cc

-- After a successful `SetPort`, the domain of that id has the new port and is otherwise as it
-- was, and every other id is answered as before.
pub set_port-get :
    (db db' : Database) (id : String) (port : ℤ)
    → set_port db id port ≡ (db', none)
    → (v : String)
    → get_domain db' v ≡ (elim (get_domain db v) [
      | failed e ↦ failed e
      | done d ↦ done (if str_eq id v then record d { port = port } else d)
    ])
unfolding set_port get_domain scan_domain
set_port-get db db' id port h v =
    let f : DomainRow → DomainRow = λ r. record r { port = nullable_port port } in
    let (up, up', found) = update_domain-find db db' id f (λ r. refl) h in
    elim (Option-cases (find_by row_id v db.domains)) [
      | inl e ↦ ground (arith, up, up', found v, e)
      | inr (a, e) ↦ elim (Bool-cases (str_eq id v)) [
        | inl g ↦ ground (arith, up, up', found v, e, g, port_back port)
        | inr g ↦ ground (arith, up, up', found v, e, g)
      ]
    ]
