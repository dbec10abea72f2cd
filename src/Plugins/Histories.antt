-- ===== src/Plugins/Histories.antt =====
-- Any sequence of the operations of an extension repository.
use alresia_voltpanel.Prelude.{
  ℕ, String, Bool, true, false, Option, none, some, List, [], ◌∷◌, ◌≡◌, inl, inr, eq_iff, arith,
  on_if, Option-cases, not, ◌||◌, Outcome, failed, done, Outcome-cases,
}
use alresia_voltpanel.Prelude.Dict.{Dict, get, string_key, nat_iff}
use alresia_voltpanel.Prelude.Table.{has_key}
use alresia_voltpanel.Prelude.Paths.{FilePath}
use alresia_voltpanel.Plugins.Protocol.{Json, read_manifest}
use alresia_voltpanel.Plugins.Registry.{Registry}
use alresia_voltpanel.Plugins.Extensions.{
  Extension, Row, row_id, Repository, Provider, World, ExtensionError, load_and_register,
  set_enabled, enable_loaded, enable, withdraw, unload, disable, delete_row, delete_disabled,
  remove, insert, install, load_all, load_enabled, withdraw_all, close_all, get_extension, list,
}
use alresia_voltpanel.Plugins.Orphans.{
  Runs, NoOrphan, Runs-close_process, unload-NoOrphan, load_and_register-NoOrphan,
}

pub data Operation : Type 0 where
  install_from : World → String → FilePath → Operation
  enable_one : World → String → Operation
  disable_one : World → String → Operation
  remove_one : World → String → Operation
  load_at_start : World → (String → World) → Operation
  shut_down : Operation

unfoldable pub perform : Json → Operation → Repository → Repository
unfolding install enable disable remove load_enabled close_all
perform json (install_from world id path) repo = (install json world repo id path).0
perform json (enable_one world id) repo = (enable json world repo id).0
perform json (disable_one world id) repo = (disable json world repo id).0
perform json (remove_one world id) repo = (remove json world repo id).0
perform json (load_at_start world worlds) repo = load_enabled json world worlds repo
perform json shut_down repo = close_all repo

unfoldable pub perform_all : Json → List Operation → Repository → Repository
unfolding perform
perform_all json [] repo = repo
perform_all json (o ∷ os) repo = perform_all json os (perform json o repo)

-- the repository of a daemon that starts, over the registry of the built-in providers
abbrev pub new_repository : Registry Provider → Repository
new_repository registry = record {
  rows = [];
  loaded = [];
  processes = [];
  next = 0;
  registry = registry;
}

-- A family on repositories that only the loaded map and the processes decide is kept by the
-- operations, given that it is kept by unload and load_and_register.
module _ (json : Json) where
  set_enabled-NoOrphan :
      (world : World) (b : Bool) (repo : Repository) (ext : Extension)
      → NoOrphan repo
      → NoOrphan (set_enabled world b repo ext).0
  unfolding set_enabled
  set_enabled-NoOrphan world b repo ext all =
      on_if (λ (r : Repository × Outcome ExtensionError Extension). NoOrphan r.0) world.executes _ _
        (λ _. all) (λ _. all)

  insert-NoOrphan :
      (world : World) (repo : Repository) (r : Row) (permissions : List String)
      → NoOrphan repo
      → NoOrphan (insert world repo r permissions).0
  unfolding insert
  insert-NoOrphan world repo r permissions all =
      on_if (λ (r : Repository × Outcome ExtensionError Extension). NoOrphan r.0)
        (not world.executes || has_key row_id r.id repo.rows) _ _ (λ _. all) (λ _. all)

  install-NoOrphan :
      (world : World) (repo : Repository) (id : String) (path : FilePath)
      → NoOrphan repo
      → NoOrphan (install json world repo id path).0
  unfolding install
  install-NoOrphan world repo id path all =
      elim (Outcome-cases (read_manifest json world.files path)) [
        | inl (e, f) ↦ rw (install, f) all
        | inr ((m, dir), f) ↦ elim (Option-cases (json.print_permissions m.permissions)) [
          | inl g ↦ rw (install, f, g) all
          | inr (text, g) ↦ rw (install, f, g) (insert-NoOrphan world repo _ m.permissions all)
        ]
      ]

  enable_loaded-NoOrphan :
      (world : World) (ext : Extension) (r : Repository × Option ExtensionError)
      → NoOrphan r.0
      → NoOrphan (enable_loaded world ext r).0
  unfolding enable_loaded
  enable_loaded-NoOrphan world ext (repo, some e) all = all
  enable_loaded-NoOrphan world ext (repo, none) all = set_enabled-NoOrphan world true repo ext all

  enable-NoOrphan :
      (world : World) (repo : Repository) (id : String)
      → NoOrphan repo
      → NoOrphan (enable json world repo id).0
  unfolding enable
  enable-NoOrphan world repo id all = elim (Outcome-cases (get_extension json world repo id)) [
    | inl (e, f) ↦ rw (enable, f) all
    | inr (ext, f) ↦
        rw (enable, f)
          (enable_loaded-NoOrphan world ext (load_and_register json world repo ext)
            (load_and_register-NoOrphan json world repo ext all))
  ]

  disable-NoOrphan :
      (world : World) (repo : Repository) (id : String)
      → NoOrphan repo
      → NoOrphan (disable json world repo id).0
  unfolding disable
  disable-NoOrphan world repo id all = elim (Outcome-cases (get_extension json world repo id)) [
    | inl (e, f) ↦ rw (disable, f) all
    | inr (ext, f) ↦
        rw (disable, f)
          (set_enabled-NoOrphan world false (unload repo id) ext (unload-NoOrphan repo id all))
  ]

  delete_row-NoOrphan :
      (world : World) (repo : Repository) (id : String)
      → NoOrphan repo
      → NoOrphan (delete_row world repo id).0
  unfolding delete_row
  delete_row-NoOrphan world repo id all =
      on_if (λ (r : Repository × Option ExtensionError). NoOrphan r.0) world.executes _ _ (λ _. all)
        (λ _. all)

  delete_disabled-NoOrphan :
      (world : World) (id : String) (r : Repository × Outcome ExtensionError Extension)
      → NoOrphan r.0
      → NoOrphan (delete_disabled world id r).0
  unfolding delete_disabled
  delete_disabled-NoOrphan world id (repo, failed e) all = all
  delete_disabled-NoOrphan world id (repo, done ext) all = delete_row-NoOrphan world repo id all

  remove-NoOrphan :
      (world : World) (repo : Repository) (id : String)
      → NoOrphan repo
      → NoOrphan (remove json world repo id).0
  unfolding remove
  remove-NoOrphan world repo id all = elim (Outcome-cases (get_extension json world repo id)) [
    | inl (e, f) ↦ rw (remove, f) all
    | inr (ext, f) ↦
        rw (remove, f)
          (on_if (λ (r : Repository × Option ExtensionError). NoOrphan r.0) ext.enabled _ _
            (λ _.
              delete_disabled-NoOrphan world id (disable json world repo id)
                (disable-NoOrphan world repo id all))
            (λ _. delete_row-NoOrphan world repo id all))
  ]

  load_all-NoOrphan :
      (worlds : String → World) (exts : List Extension) (repo : Repository)
      → NoOrphan repo
      → NoOrphan (load_all json worlds repo exts)
  unfolding load_all
  load_all-NoOrphan worlds [] repo all = all
  load_all-NoOrphan worlds (ext ∷ exts) repo all = load_all-NoOrphan worlds exts _ (
      on_if NoOrphan ext.enabled _ _
        (λ _. load_and_register-NoOrphan json (worlds ext.id) repo ext all) (λ _. all))

  load_enabled-NoOrphan :
      (world : World) (worlds : String → World) (repo : Repository)
      → NoOrphan repo
      → NoOrphan (load_enabled json world worlds repo)
  unfolding load_enabled
  load_enabled-NoOrphan world worlds repo all = elim (Outcome-cases (list json world repo.rows)) [
    | inl (e, f) ↦ rw (load_enabled, f) all
    | inr (exts, f) ↦ rw (load_enabled, f) (load_all-NoOrphan worlds exts repo all)
  ]

-- after the processes of the entries are withdrawn, none runs
withdraw_all-stopped :
    (entries : Dict String ℕ) (repo : Repository)
    → ((k : ℕ) → Runs k repo.processes → (id : String) × (get id entries ≡ some k))
    → (k : ℕ) → Runs k (withdraw_all entries repo).processes
    → true ≡ false
unfolding withdraw_all withdraw get
withdraw_all-stopped [] repo covers k r = let (id, f) = covers k r in cc
withdraw_all-stopped ((id, h) ∷ entries) repo covers k r =
    withdraw_all-stopped entries (withdraw h repo)
      (λ j s.
        let (t, other) = Runs-close_process h j repo.processes s in
        let (id', f) = covers j t in (id', ground (arith, f, other, nat_iff h j, eq_iff id id')))
      k r

close_all-stopped :
    (repo : Repository) → NoOrphan repo → (k : ℕ) → ¬ Runs k (close_all repo).processes
unfolding close_all
close_all-stopped repo all k r =
    let b : true ≡ false = withdraw_all-stopped repo.loaded (record repo { loaded = [] }) all k r in
    cc

close_all-NoOrphan : (repo : Repository) → NoOrphan repo → NoOrphan (close_all repo)
close_all-NoOrphan repo all k r = absurd (close_all-stopped repo all k r)

perform-NoOrphan :
    (json : Json) (o : Operation) (repo : Repository)
    → NoOrphan repo
    → NoOrphan (perform json o repo)
unfolding perform
perform-NoOrphan json (install_from world id path) repo = install-NoOrphan json world repo id path
perform-NoOrphan json (enable_one world id) repo = enable-NoOrphan json world repo id
perform-NoOrphan json (disable_one world id) repo = disable-NoOrphan json world repo id
perform-NoOrphan json (remove_one world id) repo = remove-NoOrphan json world repo id
perform-NoOrphan json (load_at_start world worlds) repo =
    load_enabled-NoOrphan json world worlds repo
perform-NoOrphan json shut_down repo = close_all-NoOrphan repo

perform_all-kept :
    (json : Json) (os : List Operation) (repo : Repository)
    → NoOrphan repo
    → NoOrphan (perform_all json os repo)
unfolding perform_all
perform_all-kept json [] repo all = all
perform_all-kept json (o ∷ os) repo all =
    perform_all-kept json os (perform json o repo) (perform-NoOrphan json o repo all)

-- After any sequence of Install, Enable, Disable, Remove, LoadEnabled and CloseAll on the
-- repository of a daemon that starts, whatever fails on the way, every process of an extension
-- that still runs is in the map of loaded extensions, and a further CloseAll leaves none running.
pub perform_all-NoOrphan :
    (json : Json) (os : List Operation) (registry : Registry Provider)
    → let repo = perform_all json os (new_repository registry) in
      NoOrphan repo × ((k : ℕ) → ¬ Runs k (close_all repo).processes)
unfolding get
perform_all-NoOrphan json os registry =
    let all = perform_all-kept json os (new_repository registry) (λ k r. let b = r.known in cc) in
    (all, close_all-stopped (perform_all json os (new_repository registry)) all)
