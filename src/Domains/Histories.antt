-- ===== src/Domains/Histories.antt =====
-- Every history of the operations of internal/domain/domainname/domainname.go, and the constraints of
-- their tables after it.
use alresia_voltpanel.Prelude.{
  ℕ, ◌≡◌, refl, String, Bool, true, not, ◌||◌, Option, List, [], ◌∷◌, str_eq, arith, on_if, Outcome,
}
use alresia_voltpanel.Prelude.Int.{ℤ}
use alresia_voltpanel.Prelude.Table.{has_key}
use alresia_voltpanel.Domains.{
  Database, DomainError, Domain, Certificate, DomainRow, CertificateRow, row_id, row_hostname,
  certificate_id, certified_id, is_project, insert_domain, create_domain, delete_domain,
  update_domain, set_ssl_enabled, set_port, clear_project, insert_certificate, create_certificate,
  update_certificate_status,
}
use alresia_voltpanel.Domains.Sound.{
  Sound, new_database, new_database-Sound, grown-Sound, changed-Sound, shrunk-Sound,
  certificate-Sound, renewed-Sound,
}

pub data Operation : Type 0 where
  creates : String → ℕ → String → String → ℤ → Operation
  deletes : String → Operation
  sets_ssl : String → Bool → Operation
  sets_port : String → ℤ → Operation
  clears : String → Operation
  certifies : Certificate → Operation
  renews : String → String → ℕ → ℕ → Operation

unfoldable pub perform : Database → Operation → Database
perform db (creates id now hostname project_id port) =
    (create_domain db id now hostname project_id port).0
perform db (deletes id) = (delete_domain db id).0
perform db (sets_ssl id enabled) = (set_ssl_enabled db id enabled).0
perform db (sets_port id port) = (set_port db id port).0
perform db (clears id) = (clear_project db id).0
perform db (certifies c) = (create_certificate db c).0
perform db (renews id status not_before not_after) =
    (update_certificate_status db id status not_before not_after).0

unfoldable pub perform_all : Database → List Operation → Database
unfolding perform
perform_all db [] = db
perform_all db (o ∷ os) = perform_all (perform db o) os

abbrev StaysSound : Database × Option DomainError → Type 0
StaysSound o = Sound o.0

module _ (db : Database) (s : Sound db) where
  insert_domain-Sound : (r : DomainRow) → Sound (insert_domain db r).0
  unfolding insert_domain
  insert_domain-Sound r =
      on_if StaysSound (not db.is_up) _ _ (λ _. s)
        λ _.
          on_if StaysSound
            (has_key row_id r.id db.domains || has_key row_hostname r.hostname db.domains) _ _
            (λ _. s)
            λ fresh.
              on_if StaysSound (not (is_project db.projects r.project_id)) _ _ (λ _. s)
                λ known. grown-Sound db s r (ground arith) (ground arith) (ground arith)

  create_domain-Sound :
      (id : String) (now : ℕ) (hostname project_id : String) (port : ℤ)
      → Sound (create_domain db id now hostname project_id port).0
  unfolding create_domain
  create_domain-Sound id now hostname project_id port =
      on_if (λ (o : Database × Outcome DomainError Domain). Sound o.0) (str_eq hostname "") _ _
        (λ _. s) λ _. insert_domain-Sound _

  delete_domain-Sound : (id : String) → Sound (delete_domain db id).0
  unfolding delete_domain
  delete_domain-Sound id =
      on_if StaysSound (not db.is_up) _ _ (λ _. s)
        λ _.
          on_if StaysSound (not (has_key row_id id db.domains)) _ _ (λ _. s)
            λ _.
              on_if StaysSound (has_key certified_id id db.certificates) _ _ (λ _. s)
                λ free. shrunk-Sound db s id free

  update_domain-Sound :
      (id : String) (f : DomainRow → DomainRow)
      → ((r : DomainRow) → row_id (f r) ≡ row_id r)
      → ((r : DomainRow) → row_hostname (f r) ≡ row_hostname r)
      → ((r : DomainRow)
          → is_project db.projects r.project_id ≡ true
          → is_project db.projects (f r).project_id ≡ true)
      → Sound (update_domain db id f).0
  unfolding update_domain
  update_domain-Sound id f same_id same_hostname keeps =
      on_if StaysSound (not db.is_up) _ _ (λ _. s)
        λ _.
          on_if StaysSound (has_key row_id id db.domains) _ _
            (λ _. changed-Sound db s id f same_id same_hostname keeps) λ _. s

  clear_project-Sound : (id : String) → Sound (clear_project db id).0
  unfolding clear_project is_project
  clear_project-Sound id =
      on_if StaysSound db.is_up _ _
        (λ _. changed-Sound db s id _ (λ r. refl) (λ r. refl) (λ r known. refl)) λ _. s

  insert_certificate-Sound : (c : CertificateRow) → Sound (insert_certificate db c).0
  unfolding insert_certificate
  insert_certificate-Sound c =
      on_if StaysSound (not db.is_up) _ _ (λ _. s)
        λ _.
          on_if StaysSound (has_key certificate_id c.id db.certificates) _ _ (λ _. s)
            λ new.
              on_if StaysSound (not (has_key row_id c.domain_id db.domains)) _ _ (λ _. s)
                λ owned. certificate-Sound db s c new (ground arith)

  create_certificate-Sound : (c : Certificate) → Sound (create_certificate db c).0
  unfolding create_certificate
  create_certificate-Sound c =
      on_if (λ (o : Database × Outcome DomainError Certificate). Sound o.0)
        (str_eq c.id "" || str_eq c.domain_id "") _ _ (λ _. s) λ _. insert_certificate-Sound _

  update_certificate_status-Sound :
      (id status : String) (not_before not_after : ℕ)
      → Sound (update_certificate_status db id status not_before not_after).0
  unfolding update_certificate_status
  update_certificate_status-Sound id status not_before not_after =
      on_if StaysSound (not db.is_up) _ _ (λ _. s)
        λ _.
          on_if StaysSound (has_key certificate_id id db.certificates) _ _
            (λ _. renewed-Sound db s id _ (λ c. refl) (λ c. refl)) λ _. s

perform-Sound : (db : Database) (o : Operation) → Sound db → Sound (perform db o)
unfolding perform set_ssl_enabled set_port
perform-Sound db (creates id now hostname project_id port) s =
    create_domain-Sound db s id now hostname project_id port
perform-Sound db (deletes id) s = delete_domain-Sound db s id
perform-Sound db (sets_ssl id enabled) s =
    update_domain-Sound db s id _ (λ r. refl) (λ r. refl) (λ r known. known)
perform-Sound db (sets_port id port) s =
    update_domain-Sound db s id _ (λ r. refl) (λ r. refl) (λ r known. known)
perform-Sound db (clears id) s = clear_project-Sound db s id
perform-Sound db (certifies c) s = create_certificate-Sound db s c
perform-Sound db (renews id status not_before not_after) s =
    update_certificate_status-Sound db s id status not_before not_after

pub keeps-Sound : (db : Database) (os : List Operation) → Sound db → Sound (perform_all db os)
unfolding perform_all
keeps-Sound db [] s = s
keeps-Sound db (o ∷ os) s = keeps-Sound (perform db o) os (perform-Sound db o s)

-- After any history of the operations on a new database, no two domains share an id or a
-- hostname, no two certificates share an id, every domain belongs to a project that exists or to
-- none, and every certificate belongs to a domain that exists.
pub perform_all-Sound :
    (projects : List String) (os : List Operation) → Sound (perform_all (new_database projects) os)
perform_all-Sound projects os = keeps-Sound (new_database projects) os (new_database-Sound projects)
