-- ===== src/Plugins/Consented.antt =====
-- Only extensions that the table records as enabled are loaded, while the statements succeed.
use alresia_voltpanel.Prelude.{
  ℕ, String, Bool, true, false, ◌&&◌, Option, none, some, List, [], ◌∷◌, ◌++◌, ◌≡◌, refl, sym, ◌∙◌,
  subst, inl, inr, ◌⊎◌, str_eq, eq_iff, arith, if◌then◌else◌, on_if, Bool-cases, Option-cases,
  Outcome, done, Outcome-cases,
}
use alresia_voltpanel.Prelude.Dict.{Dict, get, string_key}
use alresia_voltpanel.Prelude.Paths.{FilePath}
use alresia_voltpanel.Prelude.Table.{
  find_by, has_key, change, delete_by, unique, unique-append, find_by-none, unique-change,
  unique-delete_by,
}
use alresia_voltpanel.Plugins.Protocol.{Json, read_manifest}
use alresia_voltpanel.Plugins.Registry.{Registry}
use alresia_voltpanel.Plugins.Extensions.{
  Extension, Row, row_id, Repository, Provider, World, ExtensionError, load_and_register,
  set_enabled, enable_loaded, enable, unload, withdraw, disable, delete_row, delete_disabled,
  remove, insert, install, list, load_all, load_enabled, withdraw_all, close_all, get_extension,
  by_name, scan_all,
}
use alresia_voltpanel.Plugins.Consent.{
  is_enabled, with_enabled, is_enabled-change, is_enabled-delete_by, is_enabled-append,
  found-is_enabled, backed, list-backed, get_extension-found, unload-get, unload-rows,
}
use alresia_voltpanel.Plugins.Entries.{load_and_register-entry, load_and_register-rows}
use alresia_voltpanel.Plugins.Orphans.{Runs}
use alresia_voltpanel.Plugins.Histories.{
  Operation, install_from, enable_one, disable_one, remove_one, load_at_start, shut_down, perform,
  perform_all, new_repository, perform_all-NoOrphan,
}

pub record Consented (rows : List Row) (loaded : Dict String ℕ) : Type 0 where
  pub ids : unique row_id rows ≡ true
  pub enabled : (id : String) (h : ℕ) → get id loaded ≡ some h → is_enabled id rows ≡ true

abbrev pub IsConsented : Repository → Type 0
IsConsented repo = Consented repo.rows repo.loaded

has_row :
    (id : String) (rows : List Row) (r : Row)
    → find_by row_id id rows ≡ some r
    → has_key row_id id rows ≡ true
has_row id rows r f = elim (Bool-cases (has_key row_id id rows)) [
  | inl h ↦ h
  | inr h ↦ let g : none ≡ some r = sym (find_by-none row_id id rows h) ∙ f in cc
]

-- Rows where one extension changes, and a map that has no other entry than before.
module _ {rows : List Row} {loaded : Dict String ℕ} (ok : Consented rows loaded) where
  shrunk :
      (loaded' : Dict String ℕ)
      → ((v : String) (h : ℕ) → get v loaded' ≡ some h → get v loaded ≡ some h)
      → Consented rows loaded'
  shrunk loaded' entry = record { ids = ok.ids; enabled = λ v h e. ok.enabled v h (entry v h e) }

  updated :
      (id : String) (b : Bool) (loaded' : Dict String ℕ)
      → has_key row_id id rows ≡ true
      → ((v : String) (h : ℕ)
          → get v loaded' ≡ some h
          → ((str_eq id v ≡ true) × (b ≡ true)) ⊎ ((str_eq id v ≡ false) × (get v loaded ≡ some h)))
      → Consented (change row_id id (with_enabled b) rows) loaded'
  updated id b loaded' has entry = record {
    ids = unique-change row_id row_id id (with_enabled b) (λ r. refl) rows ∙ ok.ids;
    enabled = λ v h e. is_enabled-change id v b rows ∙ elim (entry v h e) [
      | inl (same, on) ↦ rw (same, on, has) refl
      | inr (apart, old) ↦ rw apart (ok.enabled v h old)
    ];
  }

  deleted :
      (id : String) (loaded' : Dict String ℕ)
      → ((v : String) (h : ℕ)
          → get v loaded' ≡ some h
          → (str_eq id v ≡ false) × (get v loaded ≡ some h))
      → Consented (delete_by row_id id rows) loaded'
  deleted id loaded' entry = record {
    ids = unique-delete_by row_id row_id id rows ok.ids;
    enabled = λ v h e.
        let (apart, old) = entry v h e in
        is_enabled-delete_by id v rows ∙ rw apart (ok.enabled v h old);
  }

  inserted : (r : Row) → has_key row_id r.id rows ≡ false → Consented (rows ++ r ∷ []) loaded
  inserted r free = record {
    ids = ground (arith, unique-append row_id rows r, ok.ids, free);
    enabled = λ v h e. is_enabled-append v rows r (ok.enabled v h e);
  }

-- an entry that is left after the unload of `id` is of another extension, as before
unloaded :
    (repo : Repository) (id v : String) (h : ℕ)
    → get v (unload repo id).loaded ≡ some h
    → (str_eq id v ≡ false) × (get v repo.loaded ≡ some h)
unloaded repo id v h e =
    let g : (if str_eq id v then none else get v repo.loaded) ≡ some h =
      sym (unload-get repo id v) ∙ e in
    (ground (arith, g), ground (arith, g))

module _ (json : Json) (world : World) (executes : world.executes ≡ true) where
  install-IsConsented :
      (repo : Repository) (id : String) (path : FilePath)
      → IsConsented repo
      → IsConsented (install json world repo id path).0
  unfolding install insert
  install-IsConsented repo id path ok = elim (Outcome-cases (read_manifest json world.files path)) [
    | inl (e, f) ↦ rw (install, f) ok
    | inr ((m, dir), f) ↦ elim (Option-cases (json.print_permissions m.permissions)) [
      | inl g ↦ rw (install, f, g) ok
      | inr (text, g) ↦
          rw (install, f, g, executes)
            (on_if (λ (r : Repository × Outcome ExtensionError Extension). IsConsented r.0)
              (has_key row_id id repo.rows) _ _ (λ _. ok) (λ free. inserted ok _ free))
    ]
  ]

  enable_loaded-IsConsented :
      (repo : Repository) (ext : Extension) (r : Repository × Option ExtensionError)
      → IsConsented repo
      → has_key row_id ext.id repo.rows ≡ true
      → r.0.rows ≡ repo.rows
      → ((v : String) (h : ℕ)
          → get v r.0.loaded ≡ some h
          → ((str_eq ext.id v ≡ true) × (r.1 ≡ none)) ⊎ (get v repo.loaded ≡ some h))
      → IsConsented (enable_loaded world ext r).0
  unfolding enable_loaded set_enabled
  enable_loaded-IsConsented repo ext (repo', some err) ok has same entry =
      rw same
        (shrunk ok repo'.loaded (λ v h e. elim (entry v h e) [ inl (s, bad) ↦ cc | inr old ↦ old ]))
  enable_loaded-IsConsented repo ext (repo', none) ok has same entry =
      rw (executes, same)
        (updated ok ext.id true repo'.loaded has (λ v h e. elim (Bool-cases (str_eq ext.id v)) [
          | inl s ↦ inl (s, refl)
          | inr apart ↦
              inr (
                apart,
                elim (entry v h e) [ inl (s, _) ↦ ground (arith, s, apart) | inr old ↦ old ],
              )
        ]))

  enable-IsConsented :
      (repo : Repository) (id : String)
      → IsConsented repo
      → IsConsented (enable json world repo id).0
  unfolding enable
  enable-IsConsented repo id ok = elim (Outcome-cases (get_extension json world repo id)) [
    | inl (e, f) ↦ rw (enable, f) ok
    | inr (ext, f) ↦
        let (r, g, same, _) = get_extension-found json world repo id ext f in
        rw (enable, f)
          (enable_loaded-IsConsented repo ext (load_and_register json world repo ext) ok
            (subst (λ i. has_key row_id i repo.rows ≡ true) (sym same) (has_row id repo.rows r g))
            (load_and_register-rows json world repo ext)
            (load_and_register-entry json world repo ext))
  ]

  disable-IsConsented :
      (repo : Repository) (id : String)
      → IsConsented repo
      → IsConsented (disable json world repo id).0
  unfolding disable set_enabled
  disable-IsConsented repo id ok = elim (Outcome-cases (get_extension json world repo id)) [
    | inl (e, f) ↦ rw (disable, f) ok
    | inr (ext, f) ↦
        let (r, g, same, _) = get_extension-found json world repo id ext f in
        rw (disable, f, executes, unload-rows repo id)
          (subst
            (λ i.
              Consented (change row_id i (with_enabled false) repo.rows) (unload repo id).loaded)
            (sym same)
            (updated ok id false (unload repo id).loaded (has_row id repo.rows r g)
              (λ v h e. inr (unloaded repo id v h e))))
  ]

  delete_disabled-IsConsented :
      (repo : Repository) (id : String) (ext : Extension)
      → get_extension json world repo id ≡ done ext
      → IsConsented repo
      → IsConsented (delete_disabled world id (disable json world repo id)).0
  unfolding disable set_enabled delete_disabled delete_row
  delete_disabled-IsConsented repo id ext f ok =
      let base : IsConsented (disable json world repo id).0 = disable-IsConsented repo id ok in
      let base' : Consented (change row_id ext.id (with_enabled false) (unload repo id).rows)
          (unload repo id).loaded =
        rw (disable, f, executes) at base in
      rw (disable, f, executes)
        (deleted base' id (unload repo id).loaded (λ v h e. ((unloaded repo id v h e).0, e)))

  delete_row-IsConsented :
      (repo : Repository) (id : String) (ext : Extension)
      → get_extension json world repo id ≡ done ext
      → ext.enabled ≡ false
      → IsConsented repo
      → IsConsented (delete_row world repo id).0
  unfolding delete_row
  delete_row-IsConsented repo id ext f off ok =
      let (r, g, _, same) = get_extension-found json world repo id ext f in
      let no : is_enabled id repo.rows ≡ false =
        found-is_enabled id repo.rows r ok.ids g ∙ sym same ∙ off in
      rw executes (
        deleted ok id repo.loaded (λ v h e. (
          elim (Bool-cases (str_eq id v)) [
            | inl s ↦
                let b : is_enabled id repo.rows ≡ true =
                  subst (λ i. is_enabled i repo.rows ≡ true) (sym ((eq_iff id v).0 s))
                    (ok.enabled v h e) in
                let c : true ≡ false = sym b ∙ no in cc
            | inr apart ↦ apart
          ],
          e,
        )))

  remove-IsConsented :
      (repo : Repository) (id : String)
      → IsConsented repo
      → IsConsented (remove json world repo id).0
  unfolding remove
  remove-IsConsented repo id ok = elim (Outcome-cases (get_extension json world repo id)) [
    | inl (e, f) ↦ rw (remove, f) ok
    | inr (ext, f) ↦
        rw (remove, f)
          (on_if (λ (r : Repository × Option ExtensionError). IsConsented r.0) ext.enabled _ _
            (λ _. delete_disabled-IsConsented repo id ext f ok)
            (λ off. delete_row-IsConsented repo id ext f off ok))
  ]

module _ (json : Json) (worlds : String → World) where
  load_all-IsConsented :
      (exts : List Extension) (repo : Repository)
      → backed repo.rows exts ≡ true
      → IsConsented repo
      → IsConsented (load_all json worlds repo exts)
  unfolding load_all backed
  load_all-IsConsented [] repo b ok = ok
  load_all-IsConsented (ext ∷ exts) repo b ok = elim (Bool-cases ext.enabled) [
    | inr off ↦ rw off (load_all-IsConsented exts repo (ground (arith, b)) ok)
    | inl on ↦
        let next : Repository = (load_and_register json (worlds ext.id) repo ext).0 in
        let same : next.rows ≡ repo.rows = load_and_register-rows json (worlds ext.id) repo ext in
        let says : is_enabled ext.id repo.rows ≡ true = ground (arith, b, on) in
        let rest : backed repo.rows exts ≡ true = ground (arith, b) in
        rw on (
          load_all-IsConsented exts next (subst (λ rows. backed rows exts ≡ true) (sym same) rest) (
            subst (λ rows. Consented rows next.loaded) (sym same)
              (record {
                ids = ok.ids;
                enabled = λ v h e.
                    elim (load_and_register-entry json (worlds ext.id) repo ext v h e) [
                      | inl (s, _) ↦
                          subst (λ i. is_enabled i repo.rows ≡ true) ((eq_iff ext.id v).0 s) says
                      | inr old ↦ ok.enabled v h old
                    ];
              })))
  ]

  load_enabled-IsConsented :
      (world : World) (repo : Repository)
      → IsConsented repo
      → IsConsented (load_enabled json world worlds repo)
  unfolding load_enabled list
  load_enabled-IsConsented world repo ok = elim (Bool-cases world.queries) [
    | inr q ↦ rw (load_enabled, list, q) ok
    | inl q ↦ elim (Outcome-cases (scan_all json (by_name repo.rows))) [
      | inl (e, f) ↦ rw (load_enabled, list, q, f) ok
      | inr (exts, f) ↦
          rw (load_enabled, list, q, f)
            (load_all-IsConsented exts repo (list-backed json repo.rows exts f) ok)
    ]
  ]

withdraw_all-same :
    (entries : Dict String ℕ) (repo : Repository)
    → ((withdraw_all entries repo).rows ≡ repo.rows)
      × ((withdraw_all entries repo).loaded ≡ repo.loaded)
unfolding withdraw_all withdraw
withdraw_all-same [] repo = (refl, refl)
withdraw_all-same ((id, h) ∷ entries) repo = withdraw_all-same entries (withdraw h repo)

close_all-IsConsented : (repo : Repository) → IsConsented repo → IsConsented (close_all repo)
unfolding close_all get
close_all-IsConsented repo ok =
    let (r, l) = withdraw_all-same repo.loaded (record repo { loaded = [] }) in
    rw (r, l) (shrunk ok [] (λ v h e. cc))

-- whether the statements of an operation reach the database
unfoldable pub executes : Operation → Bool
executes (install_from world id path) = world.executes
executes (enable_one world id) = world.executes
executes (disable_one world id) = world.executes
executes (remove_one world id) = world.executes
executes (load_at_start world worlds) = true
executes shut_down = true

unfoldable pub all_execute : List Operation → Bool
unfolding executes
all_execute [] = true
all_execute (o ∷ os) = executes o && all_execute os

perform-IsConsented :
    (json : Json) (o : Operation) (repo : Repository)
    → executes o ≡ true
    → IsConsented repo
    → IsConsented (perform json o repo)
unfolding perform executes
perform-IsConsented json (install_from world id path) repo x =
    install-IsConsented json world x repo id path
perform-IsConsented json (enable_one world id) repo x = enable-IsConsented json world x repo id
perform-IsConsented json (disable_one world id) repo x = disable-IsConsented json world x repo id
perform-IsConsented json (remove_one world id) repo x = remove-IsConsented json world x repo id
perform-IsConsented json (load_at_start world worlds) repo x =
    load_enabled-IsConsented json worlds world repo
perform-IsConsented json shut_down repo x = close_all-IsConsented repo

perform_all-IsConsented :
    (json : Json) (os : List Operation) (repo : Repository)
    → all_execute os ≡ true
    → IsConsented repo
    → IsConsented (perform_all json os repo)
unfolding perform_all all_execute
perform_all-IsConsented json [] repo x ok = ok
perform_all-IsConsented json (o ∷ os) repo x ok =
    perform_all-IsConsented json os (perform json o repo) (ground (arith, x))
      (perform-IsConsented json o repo (ground (arith, x)) ok)

-- After any such sequence in which every statement on the table succeeds, a process that still
-- runs is loaded for an extension that the table records as enabled.
pub perform_all-enabled :
    (json : Json) (os : List Operation) (registry : Registry Provider) (h : ℕ)
    → all_execute os ≡ true
    → Runs h (perform_all json os (new_repository registry)).processes
    → (id : String) × (get id (perform_all json os (new_repository registry)).loaded ≡ some h)
      × (is_enabled id (perform_all json os (new_repository registry)).rows ≡ true)
unfolding get unique
perform_all-enabled json os registry h x runs =
    let (id, e) = (perform_all-NoOrphan json os registry).0 h runs in
    let new : IsConsented (new_repository registry) = record {
      ids = refl;
      enabled = λ v k bad. cc;
    } in
    (id, e, (perform_all-IsConsented json os (new_repository registry) x new).enabled id h e)
