-- ===== src/Tests/Domains.antt =====
-- internal/domain/domainname/domainname.go at one domain with a certificate.
use alresia_voltpanel.Prelude.{◌≡◌, refl, true, false, some, List, [], ◌∷◌, done}
use alresia_voltpanel.Prelude.Int.{pos}
use alresia_voltpanel.Prelude.Table.{has_key}
use alresia_voltpanel.Domains.{
  Database, Domain, Certificate, row_id, certified_id, create_domain, insert_domain, domain_row,
  nullable_string, nullable_port, is_project, delete_domain, create_certificate, insert_certificate,
  certificate_row, database_error,
}
use alresia_voltpanel.Domains.Sound.{new_database, Sound}
use alresia_voltpanel.Domains.Histories.{
  Operation, creates, certifies, deletes, perform, perform_all, perform_all-Sound,
}
use alresia_voltpanel.Domains.Certified.{delete_domain-certified}

abbrev certificate : Certificate
certificate = record {
  id = "c1";
  domain_id = "d1";
  ca_id = "ca";
  not_before = 5_000_000_000;
  not_after = 9_000_000_000;
  status = "valid";
}

abbrev history : List Operation
history = creates "d1" 1_500_000_000 "shop.test" "p1" (pos 3000) ∷ certifies certificate ∷ []

abbrev one_domain : Database
one_domain = perform_all (new_database ("p1" ∷ [])) history

perform_all-Sound_example : Sound one_domain
perform_all-Sound_example = perform_all-Sound ("p1" ∷ []) history

certified : has_key certified_id "d1" one_domain.certificates ≡ true
unfolding perform_all perform new_database create_domain insert_domain domain_row create_certificate
    insert_certificate certificate_row has_key is_project nullable_string nullable_port
certified = refl

delete_domain-certified_example :
    let db = perform_all one_domain (deletes "d1" ∷ []) in
    (has_key row_id "d1" db.domains ≡ true) × (delete_domain db "d1" ≡ (db, some database_error))
delete_domain-certified_example =
    delete_domain-certified one_domain (deletes "d1" ∷ []) "d1"
      (perform_all-Sound ("p1" ∷ []) history) certified

abbrev shop : Domain
shop = record {
  id = "d1";
  hostname = "shop.test";
  project_id = "p1";
  port = pos 3000;
  provider = "hosts";
  ssl_enabled = false;
  enabled = true;
  created_at = 1_500_000_000;
}

abbrev empty : Database
empty = new_database ("p1" ∷ [])

abbrev created : Database
created = (create_domain empty "d1" 1_500_000_000 "shop.test" "p1" (pos 3000)).0

created-is_shop :
    create_domain empty "d1" 1_500_000_000 "shop.test" "p1" (pos 3000) ≡ (created, done shop)
unfolding new_database create_domain insert_domain domain_row has_key is_project nullable_string
    nullable_port
created-is_shop = refl
