-- ===== src/Domains/Sound.antt =====
-- The constraints of the `domains` and `certificates` tables, as an invariant of the database of
-- internal/domain/domainname/domainname.go, and the changes of rows that keep it.
use alresia_voltpanel.Prelude.{
  ◌≡◌, ◌∙◌, refl, sym, ap, String, true, false, some, List, [], ◌∷◌, ◌++◌, str_eq, eq_iff, arith,
  Bool-cases, Option-cases, inl, inr,
}
use alresia_voltpanel.Prelude.Table.{
  find_by, has_key, change, delete_by, unique, has_key-append, unique-append, has_key-change,
  unique-change, unique-delete_by, has_key-delete_by, find_by-append, find_by-change,
  find_by-delete_by, find_by-none,
}
use alresia_voltpanel.Domains.{
  Database, DomainRow, CertificateRow, row_id, row_hostname, certificate_id, certified_id,
  is_project,
}

unfoldable pub new_database : List String → Database
new_database projects = record {
  projects = projects;
  domains = [];
  certificates = [];
  is_up = true;
}

-- No two domains share an id or a hostname, no two certificates an id; a domain belongs to a project
-- that exists or to none, and a certificate to a domain that exists.
pub record Sound (db : Database) : Type 0 where
  pub ids : unique row_id db.domains ≡ true
  pub hostnames : unique row_hostname db.domains ≡ true
  pub certificates : unique certificate_id db.certificates ≡ true
  pub bound :
      (id : String) (r : DomainRow)
      → find_by row_id id db.domains ≡ some r
      → is_project db.projects r.project_id ≡ true
  pub certified :
      (id : String)
      → has_key certified_id id db.certificates ≡ true
      → has_key row_id id db.domains ≡ true

pub new_database-Sound : (projects : List String) → Sound (new_database projects)
unfolding new_database unique find_by has_key
new_database-Sound projects = record {
  ids = refl;
  hostnames = refl;
  certificates = refl;
  bound = λ id r h. cc;
  certified = λ id h. cc;
}

the_row : (q r : DomainRow) → some q ≡ some r → r ≡ q
the_row q r h = cc

module _ (db : Database) (s : Sound db) where
  pub grown-Sound :
      (r : DomainRow)
      → has_key row_id r.id db.domains ≡ false
      → has_key row_hostname r.hostname db.domains ≡ false
      → is_project db.projects r.project_id ≡ true
      → Sound (record db { domains = db.domains ++ r ∷ [] })
  unfolding is_project
  grown-Sound r new free known = record {
    ids = ground (arith, s.ids, unique-append row_id db.domains r);
    hostnames = ground (arith, s.hostnames, unique-append row_hostname db.domains r);
    certificates = s.certificates;
    bound = λ id q h. ground (
      arith,
      s.bound id q,
      find_by-append row_id id db.domains r,
      find_by-none row_id id db.domains,
    );
    certified = λ id h. ground (arith, s.certified id h, has_key-append row_id id db.domains r);
  }

  pub changed-Sound :
      (id : String) (f : DomainRow → DomainRow)
      → ((r : DomainRow) → row_id (f r) ≡ row_id r)
      → ((r : DomainRow) → row_hostname (f r) ≡ row_hostname r)
      → ((r : DomainRow)
          → is_project db.projects r.project_id ≡ true
          → is_project db.projects (f r).project_id ≡ true)
      → Sound (record db { domains = change row_id id f db.domains })
  unfolding is_project
  changed-Sound id f same_id same_hostname keeps = record {
    ids = rw (unique-change row_id row_id id f same_id db.domains) s.ids;
    hostnames = rw (unique-change row_id row_hostname id f same_hostname db.domains) s.hostnames;
    certificates = s.certificates;
    bound = λ v q h.
        let shown = find_by-change row_id id v f db.domains same_id in
        elim (Option-cases (find_by row_id v db.domains)) [
          | inl e ↦ ground (arith, shown, e)
          | inr (a, e) ↦ elim (Bool-cases (str_eq id v)) [
            | inl g ↦
                rw (sym (the_row q (f a) (sym h ∙ shown ∙ rw (e, g) refl)))
                  (keeps a (s.bound v a e))
            | inr g ↦ rw (sym (the_row q a (sym h ∙ shown ∙ rw (e, g) refl))) (s.bound v a e)
          ]
        ];
    certified =
        λ v h. rw (has_key-change row_id row_id id f same_id v db.domains) (s.certified v h);
  }

  pub shrunk-Sound :
      (id : String)
      → has_key certified_id id db.certificates ≡ false
      → Sound (record db { domains = delete_by row_id id db.domains })
  unfolding is_project
  shrunk-Sound id free = record {
    ids = unique-delete_by row_id row_id id db.domains s.ids;
    hostnames = unique-delete_by row_id row_hostname id db.domains s.hostnames;
    certificates = s.certificates;
    bound = λ v q h. ground (arith, s.bound v q, find_by-delete_by row_id id v db.domains);
    certified = λ v h. ground (
      arith,
      s.certified v h,
      has_key-delete_by row_id id v db.domains,
      eq_iff id v,
      ap (λ w. has_key certified_id w db.certificates) {x = id} {y = v},
    );
  }

  pub certificate-Sound :
      (c : CertificateRow)
      → has_key certificate_id c.id db.certificates ≡ false
      → has_key row_id c.domain_id db.domains ≡ true
      → Sound (record db { certificates = db.certificates ++ c ∷ [] })
  unfolding is_project
  certificate-Sound c new owned = record {
    ids = s.ids;
    hostnames = s.hostnames;
    certificates = ground (arith, s.certificates, unique-append certificate_id db.certificates c);
    bound = λ v q h. s.bound v q h;
    certified = λ v h. ground (
      arith,
      s.certified v,
      has_key-append certified_id v db.certificates c,
      eq_iff c.domain_id v,
    );
  }

  pub renewed-Sound :
      (id : String) (f : CertificateRow → CertificateRow)
      → ((c : CertificateRow) → certificate_id (f c) ≡ certificate_id c)
      → ((c : CertificateRow) → certified_id (f c) ≡ certified_id c)
      → Sound (record db { certificates = change certificate_id id f db.certificates })
  unfolding is_project
  renewed-Sound id f same_id same_domain = record {
    ids = s.ids;
    hostnames = s.hostnames;
    certificates =
        rw (unique-change certificate_id certificate_id id f same_id db.certificates)
          s.certificates;
    bound = λ v q h. s.bound v q h;
    certified = λ v h. s.certified v (
        rw (sym (has_key-change certificate_id certified_id id f same_domain v db.certificates)) h);
  }
