-- ===== src/Bindings/Undone.antt =====
-- What is left of a step of the handlers of internal/api/v1/domains.go that fails or is undone.
use Prim.Native.Char.{Char}
use alresia_voltpanel.Prelude.{
  ◌⊎◌, ℕ, String, true, false, not, ◌||◌, Option, none, some, List, [], ◌∷◌, ◌++◌, ◌≡◌, refl, ap,
  sym, ◌∙◌, subst, inl, inr, str_eq, str_eq_refl, arith, on_if, Option-cases, Outcome, failed, done,
  Outcome-cases,
}
use alresia_voltpanel.Prelude.Int.{ℤ}
use alresia_voltpanel.Prelude.Table.{has_key, delete_by, has_key-append}
use alresia_voltpanel.Domains.{
  Database, Domain, DomainError, DomainRow, row_id, row_hostname, certified_id, is_project,
  domain_row, insert_domain, create_domain, get_domain, delete_domain, set_port, update_domain,
}
use alresia_voltpanel.Domains.Sound.{Sound}
use alresia_voltpanel.Domains.Lookups.{new_domain, set_port-get}
use alresia_voltpanel.Hosts.Provider.{
  HostsFile, HostsError, Adding, absent, foreign, already, changed, Line, normalize_hostname, read,
  write, settle, search, add,
}

-- A call on the hosts file that fails leaves it, or what a write that fails leaves of it.
abbrev pub TornOnError : HostsFile → HostsFile × Option HostsError → Type 0
TornOnError f r =
    (e : HostsError)
    → r.1 ≡ some e
    → (r.0 ≡ f) ⊎ ((f.writes ≡ false) × (r.0 ≡ record f { content = f.torn }))

write-TornOnError : (f : HostsFile) (lines : List Line) → TornOnError f (write f lines)
unfolding write
write-TornOnError f lines =
    on_if (TornOnError f) f.writes _ _ (λ _ e bad. cc) (λ w e h. inr (w, refl))

settle-TornOnError :
    (f : HostsFile) (lines : List Line) (host : String) (a : Adding)
    → TornOnError f (settle f lines host a)
unfolding settle
settle-TornOnError f lines host absent = write-TornOnError f _
settle-TornOnError f lines host foreign = λ e h. inl refl
settle-TornOnError f lines host already = λ e h. inl refl
settle-TornOnError f lines host (changed lines') = write-TornOnError f lines'

pub add-TornOnError :
    (fold : Char → ℕ) (f : HostsFile) (hostname : String) → TornOnError f (add fold f hostname)
unfolding add
add-TornOnError fold f hostname = elim (Outcome-cases (normalize_hostname hostname)) [
  | inl (e, n) ↦ rw (add, n) (λ x h. inl refl)
  | inr (host, n) ↦ elim (Outcome-cases (read f)) [
    | inl (e, r) ↦ rw (add, n, r) (λ x h. inl refl)
    | inr (lines, r) ↦ rw (add, n, r) (settle-TornOnError f lines host (search fold host lines))
  ]
]

delete_by-append :
    (id : String) (rows : List DomainRow) (r : DomainRow)
    → has_key row_id id rows ≡ false
    → r.id ≡ id
    → delete_by row_id id (rows ++ r ∷ []) ≡ rows
unfolding delete_by has_key
delete_by-append id [] r h e = rw (e, str_eq_refl id) refl
delete_by-append id (s ∷ rows) r h e =
    let n : str_eq s.id id ≡ false = ground (arith, h) in
    rw n (ap (λ xs. s ∷ xs) (delete_by-append id rows r (ground (arith, h)) e))

-- a row that is inserted and deleted again leaves the table
abbrev pub Inserts : Database → DomainRow → Database × Option DomainError → Type 0
Inserts db r (db', some e) = db' ≡ db
Inserts db r (db', none) = (db.is_up ≡ true) × (db' ≡ record db { domains = db.domains ++ r ∷ [] })

pub insert_domain-Inserts : (db : Database) (r : DomainRow) → Inserts db r (insert_domain db r)
unfolding insert_domain
insert_domain-Inserts db r =
    on_if (Inserts db r) (not db.is_up) _ _ (λ _. refl)
      (λ up.
        on_if (Inserts db r)
          (has_key row_id r.id db.domains || has_key row_hostname r.hostname db.domains) _ _
          (λ _. refl)
          (λ _.
            on_if (Inserts db r) (not (is_project db.projects r.project_id)) _ _ (λ _. refl)
              (λ _. (ground (arith, up), refl))))

pub new_row_id : (d : Domain) → (domain_row d).id ≡ d.id
unfolding domain_row
new_row_id d = refl

pub delete_new :
    (db : Database) (r : DomainRow) (id : String)
    → Sound db
    → has_key row_id id db.domains ≡ false
    → r.id ≡ id
    → db.is_up ≡ true
    → (delete_domain (record db { domains = db.domains ++ r ∷ [] }) id).0 ≡ db
unfolding delete_domain
delete_new db r id ok fresh e up =
    let P : Database × Option DomainError → Type 0 = λ x. x.0 ≡ db in
    let rows : List DomainRow = db.domains ++ r ∷ [] in
    on_if P (not db.is_up) _ _ (λ n. let bad : true ≡ false = ground (arith, n, up) in cc)
      (λ _.
        on_if P (not (has_key row_id id rows)) _ _
          (λ n.
            let bad : true ≡ false = ground (
              arith,
              n,
              has_key-append row_id id db.domains r,
              ap (λ i. str_eq i id) e,
              str_eq_refl id,
            ) in
            cc)
          (λ _.
            on_if P (has_key certified_id id db.certificates) _ _
              (λ c. let bad : true ≡ false = sym (ok.certified id c) ∙ fresh in cc)
              (λ _.
                ap (λ ds. record db { domains = ds }) (delete_by-append id db.domains r fresh e))))

-- the domain of an id, with a name
abbrev pub Named : Database → String → String → Type 0
Named db id hostname = (row : Domain) × (get_domain db id ≡ done row) × (row.hostname ≡ hostname)

set_port_failed :
    (db : Database) (id : String) (port : ℤ) (e : DomainError)
    → (set_port db id port).1 ≡ some e
    → (set_port db id port).0 ≡ db
unfolding set_port update_domain
set_port_failed db id port e =
    let P : Database × Option DomainError → Type 0 = λ o. o.1 ≡ some e → o.0 ≡ db in
    on_if P (not db.is_up) _ _ (λ _ h. refl)
      (λ _. on_if P (has_key row_id id db.domains) _ _ (λ _ bad. cc) (λ _ h. refl))

pub set_port-Named :
    (db : Database) (id hostname : String) (port : ℤ)
    → Named db id hostname
    → Named (set_port db id port).0 id hostname
set_port-Named db id hostname port (row, g, n) = elim (Option-cases (set_port db id port).1) [
  | inl none_is ↦
      let h : set_port db id port ≡ ((set_port db id port).0, none) =
        ap (λ (o : Option DomainError). ((set_port db id port).0, o)) none_is in
      let k : get_domain (set_port db id port).0 id ≡ done (record row { port = port }) =
        set_port-get db (set_port db id port).0 id port h id ∙ rw (g, str_eq_refl id) refl in
      (record row { port = port }, k, n)
  | inr (e, some_is) ↦
      subst (λ db'. Named db' id hostname) (sym (set_port_failed db id port e some_is)) (row, g, n)
]

insert_failed :
    (db : Database) (r : DomainRow) (e : DomainError)
    → (insert_domain db r).1 ≡ some e
    → (insert_domain db r).0 ≡ db
insert_failed db r e h =
    subst (λ o. Inserts db r ((insert_domain db r).0, o)) h (insert_domain-Inserts db r)

pub create_domain_failed :
    (db : Database) (id : String) (now : ℕ) (hostname project_id : String) (port : ℤ)
    (e : DomainError)
    → (create_domain db id now hostname project_id port).1 ≡ failed e
    → (create_domain db id now hostname project_id port).0 ≡ db
unfolding create_domain
create_domain_failed db id now hostname project_id port e =
    on_if (λ (r : Database × Outcome DomainError Domain). r.1 ≡ failed e → r.0 ≡ db)
      (str_eq hostname "") _ _ (λ _ h. refl)
      (λ _ h.
        elim (Option-cases
          (insert_domain db (domain_row (new_domain id now hostname project_id port))).1) [
            | inl n ↦
                (let g : done (new_domain id now hostname project_id port) ≡ failed e = rw n at h in
                  cc)
            | inr (x, n) ↦
                insert_failed db (domain_row (new_domain id now hostname project_id port)) x n
          ])
