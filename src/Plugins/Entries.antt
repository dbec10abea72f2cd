-- ===== src/Plugins/Entries.antt =====
-- What an operation does to the map of loaded processes and to the rows.
use alresia_voltpanel.Prelude.{
  ℕ, String, true, Option, none, some, ◌≡◌, refl, ap, sym, ◌∙◌, inl, inr, ◌⊎◌, str_eq, arith,
  if◌then◌else◌, on_if, Bool-cases, Option-cases,
}
use alresia_voltpanel.Prelude.Dict.{Dict, get, get-put, get-remove, string_key}
use alresia_voltpanel.Plugins.Protocol.{Json}
use alresia_voltpanel.Plugins.Host.{ExternalProvider, LoadError, load_extension}
use alresia_voltpanel.Plugins.Extensions.{
  Extension, Repository, World, ExtensionError, drop_loaded, launched, start_process,
  register_loaded, load_and_register,
}

drop_loaded-entry :
    (repo : Repository) (id v : String) (h : ℕ)
    → get v (drop_loaded repo id).loaded ≡ some h
    → get v repo.loaded ≡ some h
unfolding drop_loaded
drop_loaded-entry repo id v h e = elim (Option-cases (get id repo.loaded)) [
  | inl f ↦ rw (drop_loaded, f) at e
  | inr (k, f) ↦
      let g : (if str_eq id v then none else get v repo.loaded) ≡ some h =
        sym (get-remove id v repo.loaded) ∙ (rw (drop_loaded, f) at e) in
      ground (arith, g)
]

start_process-loaded :
    (repo : Repository) (o : Option ExternalProvider) → (start_process repo o).loaded ≡ repo.loaded
unfolding start_process
start_process-loaded repo none = refl
start_process-loaded repo (some e) = refl

launched-entry :
    (repo : Repository) (id v : String) (o : Option ExternalProvider × Option LoadError) (h : ℕ)
    → get v (launched repo id o).0.loaded ≡ some h
    → ((str_eq id v ≡ true) × ((launched repo id o).1 ≡ none)) ⊎ (get v repo.loaded ≡ some h)
unfolding launched register_loaded
launched-entry repo id v (p, some err) h e =
    inr (sym (ap (get v) (start_process-loaded repo p)) ∙ e)
launched-entry repo id v (p, none) h e = elim (Bool-cases (str_eq id v)) [
  | inl same ↦ inl (same, refl)
  | inr apart ↦ inr (
      let l : Dict String ℕ = (start_process repo p).loaded in
      let g : (if str_eq id v then some repo.next else get v l) ≡ some h =
        sym (get-put id v repo.next l) ∙ e in
      sym (ap (get v) (start_process-loaded repo p)) ∙ ground (arith, g, apart))
]

pub load_and_register-entry :
    (json : Json) (world : World) (repo : Repository) (ext : Extension) (v : String) (h : ℕ)
    → get v (load_and_register json world repo ext).0.loaded ≡ some h
    → ((str_eq ext.id v ≡ true) × ((load_and_register json world repo ext).1 ≡ none))
      ⊎ (get v repo.loaded ≡ some h)
unfolding load_and_register
load_and_register-entry json world repo ext v h =
    on_if
      (λ (r : Repository × Option ExtensionError).
        get v r.0.loaded ≡ some h
        → ((str_eq ext.id v ≡ true) × (r.1 ≡ none)) ⊎ (get v repo.loaded ≡ some h))
      (str_eq ext.kind "runtime") _ _
      (λ _ e.
        elim (launched-entry (drop_loaded repo ext.id) ext.id v
          (load_extension json world.files world.launch ext.source) h e) [
            | inl a ↦ inl a
            | inr b ↦ inr (drop_loaded-entry repo ext.id v h b)
          ])
      (λ _ e. inr e)

drop_loaded-rows : (repo : Repository) (id : String) → (drop_loaded repo id).rows ≡ repo.rows
unfolding drop_loaded
drop_loaded-rows repo id = elim (Option-cases (get id repo.loaded)) [
  | inl f ↦ rw (drop_loaded, f) refl
  | inr (h, f) ↦ rw (drop_loaded, f) refl
]

start_process-rows :
    (repo : Repository) (o : Option ExternalProvider) → (start_process repo o).rows ≡ repo.rows
unfolding start_process
start_process-rows repo none = refl
start_process-rows repo (some e) = refl

launched-rows :
    (repo : Repository) (id : String) (o : Option ExternalProvider × Option LoadError)
    → (launched repo id o).0.rows ≡ repo.rows
unfolding launched register_loaded
launched-rows repo id (p, none) = start_process-rows repo p
launched-rows repo id (p, some err) = start_process-rows repo p

pub load_and_register-rows :
    (json : Json) (world : World) (repo : Repository) (ext : Extension)
    → (load_and_register json world repo ext).0.rows ≡ repo.rows
unfolding load_and_register
load_and_register-rows json world repo ext =
    on_if (λ (r : Repository × Option ExtensionError). r.0.rows ≡ repo.rows)
      (str_eq ext.kind "runtime") _ _
      (λ _.
        launched-rows (drop_loaded repo ext.id) ext.id
          (load_extension json world.files world.launch ext.source)
        ∙ drop_loaded-rows repo ext.id)
      (λ _. refl)
