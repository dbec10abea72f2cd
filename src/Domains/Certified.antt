-- ===== src/Domains/Certified.antt =====
-- Domains with a certificate in internal/domain/domainname/domainname.go: no operation deletes a
-- certificate, and the table refuses to delete a domain that one references.
use alresia_voltpanel.Prelude.{
  ℕ, ◌≡◌, refl, String, true, not, ◌||◌, some, List, [], ◌∷◌, str_eq, arith, on_if,
}
use alresia_voltpanel.Prelude.Table.{has_key, change, has_key-append, has_key-change}
use alresia_voltpanel.Domains.{
  Database, database_error, DomainRow, CertificateRow, row_id, row_hostname, certificate_id,
  certified_id, is_project, insert_domain, create_domain, delete_domain, update_domain,
  set_ssl_enabled, set_port, clear_project, insert_certificate, create_certificate,
  update_certificate_status,
}
use alresia_voltpanel.Domains.Sound.{Sound}
use alresia_voltpanel.Domains.Histories.{
  Operation, creates, deletes, sets_ssl, sets_port, clears, certifies, renews, perform, perform_all,
  keeps-Sound,
}

module _ (id : String) where
  abbrev Certified : Database → Type 0
  Certified db = has_key certified_id id db.certificates ≡ true

  abbrev StaysCertified : {B : Type 0} → Database × B → Type 0
  StaysCertified o = Certified o.0

  module _ (db : Database) (c : Certified db) where
    insert_domain-Certified : (r : DomainRow) → StaysCertified (insert_domain db r)
    unfolding insert_domain
    insert_domain-Certified r =
        on_if StaysCertified (not db.is_up) _ _ (λ _. c)
          λ _.
            on_if StaysCertified
              (has_key row_id r.id db.domains || has_key row_hostname r.hostname db.domains) _ _
              (λ _. c)
              λ _.
                on_if StaysCertified (not (is_project db.projects r.project_id)) _ _ (λ _. c) λ _. c

    delete_domain-Certified : (v : String) → StaysCertified (delete_domain db v)
    unfolding delete_domain
    delete_domain-Certified v =
        on_if StaysCertified (not db.is_up) _ _ (λ _. c)
          λ _.
            on_if StaysCertified (not (has_key row_id v db.domains)) _ _ (λ _. c)
              λ _. on_if StaysCertified (has_key certified_id v db.certificates) _ _ (λ _. c) λ _. c

    update_domain-Certified :
        (v : String) (f : DomainRow → DomainRow) → StaysCertified (update_domain db v f)
    unfolding update_domain
    update_domain-Certified v f =
        on_if StaysCertified (not db.is_up) _ _ (λ _. c)
          λ _. on_if StaysCertified (has_key row_id v db.domains) _ _ (λ _. c) λ _. c

    insert_certificate-Certified : (r : CertificateRow) → StaysCertified (insert_certificate db r)
    unfolding insert_certificate
    insert_certificate-Certified r =
        on_if StaysCertified (not db.is_up) _ _ (λ _. c)
          λ _.
            on_if StaysCertified (has_key certificate_id r.id db.certificates) _ _ (λ _. c)
              λ _.
                on_if StaysCertified (not (has_key row_id r.domain_id db.domains)) _ _ (λ _. c)
                  λ _. ground (arith, c, has_key-append certified_id id db.certificates r)

    renewed-Certified :
        (v : String) (f : CertificateRow → CertificateRow)
        → ((r : CertificateRow) → certified_id (f r) ≡ certified_id r)
        → has_key certified_id id (change certificate_id v f db.certificates) ≡ true
    renewed-Certified v f same =
        rw (has_key-change certificate_id certified_id v f same id db.certificates) c

    update_certificate_status-Certified :
        (v status : String) (not_before not_after : ℕ)
        → StaysCertified (update_certificate_status db v status not_before not_after)
    unfolding update_certificate_status
    update_certificate_status-Certified v status not_before not_after =
        on_if StaysCertified (not db.is_up) _ _ (λ _. c)
          λ _.
            on_if StaysCertified (has_key certificate_id v db.certificates) _ _
              (λ _. renewed-Certified v _ (λ r. refl)) λ _. c

  perform-Certified : (db : Database) (o : Operation) → Certified db → Certified (perform db o)
  unfolding perform set_ssl_enabled set_port clear_project create_domain create_certificate
  perform-Certified db (creates v now hostname project_id port) c =
      on_if StaysCertified (str_eq hostname "") _ _ (λ _. c) λ _. insert_domain-Certified db c _
  perform-Certified db (deletes v) c = delete_domain-Certified db c v
  perform-Certified db (sets_ssl v enabled) c = update_domain-Certified db c v _
  perform-Certified db (sets_port v port) c = update_domain-Certified db c v _
  perform-Certified db (clears v) c = on_if StaysCertified db.is_up _ _ (λ _. c) λ _. c
  perform-Certified db (certifies r) c =
      on_if StaysCertified (str_eq r.id "" || str_eq r.domain_id "") _ _ (λ _. c)
        λ _. insert_certificate-Certified db c _
  perform-Certified db (renews v status not_before not_after) c =
      update_certificate_status-Certified db c v status not_before not_after

  perform_all-Certified :
      (db : Database) (os : List Operation) → Certified db → Certified (perform_all db os)
  unfolding perform_all
  perform_all-Certified db [] c = c
  perform_all-Certified db (o ∷ os) c =
      perform_all-Certified (perform db o) os (perform-Certified db o c)

delete_domain-refused :
    (db : Database) (id : String)
    → has_key row_id id db.domains ≡ true
    → has_key certified_id id db.certificates ≡ true
    → delete_domain db id ≡ (db, some database_error)
unfolding delete_domain
delete_domain-refused db id h c =
    on_if (λ o. o ≡ (db, some database_error)) (not db.is_up) _ _ (λ _. refl) λ _. rw (h, c) refl

-- In a sound database where a domain has a certificate, no history of the operations makes room
-- for the deletion of the domain: it stays in the table, and `DeleteDomain` on it fails with an
-- error of the database and changes nothing.
pub delete_domain-certified :
    (db : Database) (os : List Operation) (id : String)
    → Sound db
    → has_key certified_id id db.certificates ≡ true
    → let db' = perform_all db os in
      (has_key row_id id db'.domains ≡ true) × (delete_domain db' id ≡ (db', some database_error))
delete_domain-certified db os id s c =
    let after = keeps-Sound db os s in
    let c' = perform_all-Certified id db os c in
    let h = after.certified id c' in (h, delete_domain-refused (perform_all db os) id h c')
