-- ===== src/Domains.antt =====
-- internal/domain/domainname/domainname.go, over the `domains` and `certificates` tables of
-- internal/storage/migrations/0001_init.sql with their UNIQUE and REFERENCES constraints.
-- An instant is a number of nanoseconds; a column keeps its seconds. A new id and the time are
-- arguments. The `projects` table is the list of its ids.
pub mod Sound
pub mod Histories
pub mod Certified
pub mod Lookups
use alresia_voltpanel.Prelude.{
  ℕ, ◌*◌, ◌/◌, String, Bool, true, false, not, ◌&&◌, ◌||◌, Option, none, some, List, [], ◌∷◌, ◌++◌,
  map, str_eq, elem, if◌then◌else◌, ◌==◌, keep, Outcome, failed, done,
}
use alresia_voltpanel.Prelude.Int.{ℤ, pos, is_zero}
use alresia_voltpanel.Prelude.Table.{order_by, find_by, has_key, change, delete_by}
use alresia_voltpanel.Storage.{second}

pub record Domain : Type 0 where
  pub id : String
  pub hostname : String
  pub project_id : String
  pub port : ℤ
  pub provider : String
  pub ssl_enabled : Bool
  pub enabled : Bool
  pub created_at : ℕ

pub record Certificate : Type 0 where
  pub id : String
  pub domain_id : String
  pub ca_id : String
  pub not_before : ℕ
  pub not_after : ℕ
  pub status : String

-- The columns; instants in seconds.
pub record DomainRow : Type 0 where
  pub id : String
  pub hostname : String
  pub project_id : Option String
  pub port : Option ℤ
  pub provider : String
  pub ssl_enabled : ℕ
  pub enabled : ℕ
  pub created_at : ℕ

pub record CertificateRow : Type 0 where
  pub id : String
  pub domain_id : String
  pub ca_id : Option String
  pub not_before : ℕ
  pub not_after : ℕ
  pub status : String

-- `is_up` is false while every statement fails.
pub record Database : Type 0 where
  pub projects : List String
  pub domains : List DomainRow
  pub certificates : List CertificateRow
  pub is_up : Bool

pub data DomainError : Type 0 where
  not_found : DomainError
  hostname_taken : DomainError
  no_hostname : DomainError
  no_certificate_id : DomainError
  database_error : DomainError

abbrev pub row_id : DomainRow → String
row_id d = d.id

abbrev pub row_hostname : DomainRow → String
row_hostname d = d.hostname

abbrev pub certificate_id : CertificateRow → String
certificate_id c = c.id

abbrev pub certified_id : CertificateRow → String
certified_id c = c.domain_id

unfoldable pub nullable_string : String → Option String
nullable_string s = if str_eq s "" then none else some s

unfoldable pub nullable_port : ℤ → Option ℤ
nullable_port p = if is_zero p then none else some p

-- COALESCE
abbrev coalesce {ℓ} : {A : Type ℓ} → A → Option A → A
coalesce a none = a
coalesce a (some b) = b

unfoldable pub flag : Bool → ℕ
flag true = 1
flag false = 0

unfoldable pub scan_domain : DomainRow → Domain
scan_domain r = record {
  id = r.id;
  hostname = r.hostname;
  project_id = coalesce "" r.project_id;
  port = coalesce (pos 0) r.port;
  provider = r.provider;
  ssl_enabled = not (r.ssl_enabled == 0);
  enabled = not (r.enabled == 0);
  created_at = r.created_at * second;
}

unfoldable pub scan_certificate : CertificateRow → Certificate
scan_certificate r = record {
  id = r.id;
  domain_id = r.domain_id;
  ca_id = coalesce "" r.ca_id;
  not_before = r.not_before * second;
  not_after = r.not_after * second;
  status = r.status;
}

-- A reference is NULL or the id of a project.
unfoldable pub is_project : List String → Option String → Bool
is_project ps none = true
is_project ps (some p) = elem p ps

unfoldable pub domain_row : Domain → DomainRow
unfolding nullable_string nullable_port flag
domain_row d = record {
  id = d.id;
  hostname = d.hostname;
  project_id = nullable_string d.project_id;
  port = nullable_port d.port;
  provider = d.provider;
  ssl_enabled = 0;
  enabled = 1;
  created_at = d.created_at / second;
}

-- INSERT INTO domains: `none` is success
unfoldable pub insert_domain : Database → DomainRow → Database × Option DomainError
insert_domain db r =
    if not db.is_up
    then (db, some database_error)
    else if has_key row_id r.id db.domains || has_key row_hostname r.hostname db.domains
    then (db, some hostname_taken)
    else if not (is_project db.projects r.project_id)
    then (db, some database_error)
    else (record db { domains = db.domains ++ r ∷ [] }, none)

unfoldable pub create_domain :
    Database → String → ℕ → String → String → ℤ → Database × Outcome DomainError Domain
create_domain db id now hostname project_id port =
    let d : Domain = record {
      id = id;
      hostname = hostname;
      project_id = project_id;
      port = port;
      provider = "hosts";
      ssl_enabled = false;
      enabled = true;
      created_at = now;
    } in
    let (db', e) = insert_domain db (domain_row d) in
    let answer : Outcome DomainError Domain = elim e [ none ↦ done d | some x ↦ failed x ] in
    if str_eq hostname "" then (db, failed no_hostname) else (db', answer)

unfoldable pub get_domain : Database → String → Outcome DomainError Domain
get_domain db id =
    let found : Outcome DomainError Domain = elim (find_by row_id id db.domains) [
      | none ↦ failed not_found
      | some r ↦ done (scan_domain r)
    ] in
    if db.is_up then found else failed database_error

unfoldable pub list_domains : Database → Outcome DomainError (List Domain)
list_domains db =
    if db.is_up
    then done (map scan_domain (order_by (λ (r : DomainRow). r.created_at) db.domains))
    else failed database_error

unfoldable pub is_bound : String → DomainRow → Bool
is_bound project_id r = elim r.project_id [ none ↦ false | some p ↦ str_eq p project_id ]

unfoldable pub list_domains_for_project : Database → String → Outcome DomainError (List Domain)
list_domains_for_project db project_id =
    if db.is_up
    then done (
        map scan_domain
          (order_by (λ (r : DomainRow). r.created_at) (keep (is_bound project_id) db.domains)))
    else failed database_error

-- A domain that a certificate references is not deleted: the statement fails.
unfoldable pub delete_domain : Database → String → Database × Option DomainError
delete_domain db id =
    if not db.is_up
    then (db, some database_error)
    else if not (has_key row_id id db.domains)
    then (db, some not_found)
    else if has_key certified_id id db.certificates
    then (db, some database_error)
    else (record db { domains = delete_by row_id id db.domains }, none)

-- UPDATE domains ... WHERE id = ?, with the check of the affected rows
unfoldable pub update_domain :
    Database → String → (DomainRow → DomainRow) → Database × Option DomainError
update_domain db id f =
    if not db.is_up
    then (db, some database_error)
    else if has_key row_id id db.domains
    then (record db { domains = change row_id id f db.domains }, none)
    else (db, some not_found)

unfoldable pub set_ssl_enabled : Database → String → Bool → Database × Option DomainError
set_ssl_enabled db id enabled = update_domain db id (λ r. record r { ssl_enabled = flag enabled })

unfoldable pub set_port : Database → String → ℤ → Database × Option DomainError
set_port db id port = update_domain db id (λ r. record r { port = nullable_port port })

unfoldable pub clear_project : Database → String → Database × Option DomainError
clear_project db id =
    let unbind : DomainRow → DomainRow = λ r. record r { project_id = none; port = none } in
    if db.is_up
    then (record db { domains = change row_id id unbind db.domains }, none)
    else (db, some database_error)

unfoldable pub insert_certificate : Database → CertificateRow → Database × Option DomainError
insert_certificate db c =
    if not db.is_up
    then (db, some database_error)
    else if has_key certificate_id c.id db.certificates
    then (db, some database_error)
    else if not (has_key row_id c.domain_id db.domains)
    then (db, some database_error)
    else (record db { certificates = db.certificates ++ c ∷ [] }, none)

unfoldable pub certificate_row : Certificate → CertificateRow
certificate_row c = record {
  id = c.id;
  domain_id = c.domain_id;
  ca_id = nullable_string c.ca_id;
  not_before = c.not_before / second;
  not_after = c.not_after / second;
  status = c.status;
}

unfoldable pub create_certificate :
    Database → Certificate → Database × Outcome DomainError Certificate
create_certificate db c =
    let (db', e) = insert_certificate db (certificate_row c) in
    let answer : Outcome DomainError Certificate = elim e [ none ↦ done c | some x ↦ failed x ] in
    if str_eq c.id "" || str_eq c.domain_id ""
    then (db, failed no_certificate_id)
    else (db', answer)

unfoldable pub get_certificate : Database → String → Outcome DomainError Certificate
get_certificate db id =
    let found : Outcome DomainError Certificate = elim (find_by certificate_id id db.certificates) [
      | none ↦ failed not_found
      | some r ↦ done (scan_certificate r)
    ] in
    if db.is_up then found else failed database_error

unfoldable pub list_certificates_for_domain :
    Database → String → Outcome DomainError (List Certificate)
list_certificates_for_domain db domain_id =
    if db.is_up
    then done (
        map scan_certificate (
          order_by (λ (r : CertificateRow). r.not_before)
            (keep (λ (r : CertificateRow). str_eq r.domain_id domain_id) db.certificates)))
    else failed database_error

unfoldable pub update_certificate_status :
    Database → String → String → ℕ → ℕ → Database × Option DomainError
update_certificate_status db id status not_before not_after =
    let renew : CertificateRow → CertificateRow = λ r. record r {
      status = status;
      not_before = not_before / second;
      not_after = not_after / second;
    } in
    if not db.is_up
    then (db, some database_error)
    else if has_key certificate_id id db.certificates
    then (record db { certificates = change certificate_id id renew db.certificates }, none)
    else (db, some not_found)
