-- ===== src/Plugins/Orphans.antt =====
-- No process of an extension runs on without an entry of the map of loaded processes.
use mathlib.Core.Option
use alresia_voltpanel.Prelude.{
  ℕ, String, true, false, Option, none, some, ◌≡◌, refl, ap, sym, subst, ◌∙◌, inl, inr, str_eq,
  str_eq_refl, eq_iff, if◌then◌else◌, on_if, Bool-cases, Option-cases, ◌==◌,
}
use alresia_voltpanel.Prelude.Dict
use alresia_voltpanel.Prelude.Dict.{
  Dict, get, put, get-put, get-remove, nat_key, string_key, nat_iff,
}
use alresia_voltpanel.Plugins.Protocol.{Json}
use alresia_voltpanel.Plugins.Host.{ExternalProvider, LoadError, close, load_extension}
use alresia_voltpanel.Plugins.Loading.{
  AsAnswered, nothing_started, loaded, stopped, load_extension-AsAnswered,
}
use alresia_voltpanel.Plugins.Extensions.{
  Extension, Repository, World, ExtensionError, close_process, drop_loaded, start_process,
  register_loaded, launched, load_and_register, withdraw, unload,
}

-- the process of that handle still runs
pub record Runs (h : ℕ) (processes : Dict ℕ ExternalProvider) : Type 0 where
  pub provider : ExternalProvider
  pub known : get h processes ≡ some provider
  pub running : provider.closed ≡ false

abbrev pub NoOrphan : Repository → Type 0
NoOrphan repo = (h : ℕ) → Runs h repo.processes → (id : String) × (get id repo.loaded ≡ some h)

close-closed : (e : ExternalProvider) → (close e).closed ≡ true
unfolding close
close-closed e =
    on_if (λ x. x.closed ≡ true) e.closed e
      (record e { closed = true; stdin_closed = true; killed = true }) (λ c. c) (λ _. refl)

some_closed : (a b : ExternalProvider) → some a ≡ some b → a.closed ≡ b.closed
some_closed a b h =
    ap (λ (o : Option ExternalProvider). elim o [ none ↦ true | some e ↦ e.closed ]) h

pub get-close_process :
    (h k : ℕ) (processes : Dict ℕ ExternalProvider)
    → get k (close_process h processes)
      ≡ (if h == k then Option.map close (get k processes) else get k processes)
unfolding close_process
get-close_process h k processes = elim (Option-cases (get h processes)) [
  | inl f ↦ elim (Bool-cases (h == k)) [
    | inl same ↦
        let g : get k processes ≡ none =
          subst (λ j. get j processes ≡ none) ((nat_iff h k).0 same) f in
        rw (close_process, f, same, g) refl
    | inr other ↦ rw (close_process, f, other) refl
  ]
  | inr (e, f) ↦ elim (Bool-cases (h == k)) [
    | inl same ↦
        let g : get k processes ≡ some e =
          subst (λ j. get j processes ≡ some e) ((nat_iff h k).0 same) f in
        rw (close_process, f, get-put h k (close e) processes, same, g) refl
    | inr other ↦ rw (close_process, f, get-put h k (close e) processes, other) refl
  ]
]

-- a process that runs after a Close ran before it, and is another
pub Runs-close_process :
    (h k : ℕ) (processes : Dict ℕ ExternalProvider)
    → Runs k (close_process h processes)
    → Runs k processes × (h == k ≡ false)
Runs-close_process h k processes r = elim (Bool-cases (h == k)) [
  | inl same ↦ elim (Option-cases (get k processes)) [
    | inl f ↦
        let g : none ≡ some r.provider = rw (get-close_process h k processes, same, f) at r.known in
        cc
    | inr (e, f) ↦
        let g : some (close e) ≡ some r.provider =
          rw (get-close_process h k processes, same, f) at r.known in
        let c : (close e).closed ≡ r.provider.closed = some_closed (close e) r.provider g in
        let b : true ≡ false = sym (close-closed e) ∙ c ∙ r.running in cc
  ]
  | inr other ↦ (
    record {
      provider = r.provider;
      known = rw (get-close_process h k processes, other) at r.known;
      running = r.running;
    },
    other,
  )
]

-- Closing the processes with an entry of `id` and taking its entry away.
module _ (repo : Repository) (id : String) (h : ℕ) where
  without_entry :
      NoOrphan repo
      → get id repo.loaded ≡ some h
      → (k : ℕ) → Runs k (close_process h repo.processes)
      → (id' : String) × (get id' (Dict.remove id repo.loaded) ≡ some k)
  without_entry all known k r =
      let (s, other) = Runs-close_process h k repo.processes r in
      let (id', f) = all k s in
      (
        id',
        elim (Bool-cases (str_eq id id')) [
          | inl same ↦
              let g : some h ≡ some k =
                sym known
                ∙ subst (λ i. get i repo.loaded ≡ some k) (sym ((eq_iff id id').0 same)) f in
              let e : h ≡ k = cc in let b : true ≡ false = sym ((nat_iff h k).1 e) ∙ other in cc
          | inr apart ↦ rw (get-remove id id' repo.loaded, apart) f
        ],
      )

  withdraw-NoOrphan :
      NoOrphan repo
      → get id repo.loaded ≡ some h
      → NoOrphan (withdraw h (record repo { loaded = Dict.remove id repo.loaded }))
  unfolding withdraw
  withdraw-NoOrphan all known = without_entry all known

drop_loaded-NoOrphan :
    (repo : Repository) (id : String) → NoOrphan repo → NoOrphan (drop_loaded repo id)
unfolding drop_loaded
drop_loaded-NoOrphan repo id all = elim (Option-cases (get id repo.loaded)) [
  | inl f ↦ rw (drop_loaded, f) all
  | inr (h, f) ↦ rw (drop_loaded, f) (without_entry repo id h all f)
]

pub unload-NoOrphan : (repo : Repository) (id : String) → NoOrphan repo → NoOrphan (unload repo id)
unfolding unload
unload-NoOrphan repo id all = elim (Option-cases (get id repo.loaded)) [
  | inl f ↦ rw (unload, f) all
  | inr (h, f) ↦ rw (unload, f) (withdraw-NoOrphan repo id h all f)
]

drop_loaded-get : (repo : Repository) (id : String) → get id (drop_loaded repo id).loaded ≡ none
unfolding drop_loaded
drop_loaded-get repo id = elim (Option-cases (get id repo.loaded)) [
  | inl f ↦ rw (drop_loaded, f) f
  | inr (h, f) ↦ rw (drop_loaded, f, get-remove id id repo.loaded, str_eq_refl id) refl
]

-- A new handle for a process that is closed, or is loaded for an extension without one.
module _ (repo : Repository) (id : String) (all : NoOrphan repo) where
  launched_closed :
      (e : ExternalProvider) (err : LoadError)
      → e.closed ≡ true
      → NoOrphan (launched repo id (some e, some err)).0
  unfolding launched start_process
  launched_closed e err c k r = elim (Bool-cases (repo.next == k)) [
    | inl same ↦
        let g : some e ≡ some r.provider =
          rw (get-put repo.next k e repo.processes, same) at r.known in
        let b : true ≡ false = sym c ∙ some_closed e r.provider g ∙ r.running in cc
    | inr other ↦ all k (record {
      provider = r.provider;
      known = rw (get-put repo.next k e repo.processes, other) at r.known;
      running = r.running;
    })
  ]

  launched_ready :
      (e : ExternalProvider)
      → get id repo.loaded ≡ none
      → NoOrphan (launched repo id (some e, none)).0
  unfolding launched start_process register_loaded
  launched_ready e free k r = elim (Bool-cases (repo.next == k)) [
    | inl same ↦ (
      id,
      rw (get-put id id repo.next repo.loaded, str_eq_refl id, (nat_iff repo.next k).0 same) refl,
    )
    | inr other ↦
        let (id', f) = all k (record {
          provider = r.provider;
          known = rw (get-put repo.next k e repo.processes, other) at r.known;
          running = r.running;
        }) in
        (
          id',
          elim (Bool-cases (str_eq id id')) [
            | inl same ↦
                let g : none ≡ some k =
                  sym free
                  ∙ subst (λ i. get i repo.loaded ≡ some k) (sym ((eq_iff id id').0 same)) f in
                cc
            | inr apart ↦ rw (get-put id id' repo.next repo.loaded, apart) f
          ],
        )
  ]

  launched-NoOrphan :
      (json : Json) (o : Option ExternalProvider × Option LoadError)
      → AsAnswered json o
      → get id repo.loaded ≡ none
      → NoOrphan (launched repo id o).0
  unfolding launched start_process
  launched-NoOrphan json _ (nothing_started err) free = all
  launched-NoOrphan json _ (loaded e ready) free = launched_ready e free
  launched-NoOrphan json _ (stopped e err s) free = launched_closed e err s.0

module _ (json : Json) (world : World) where
  pub load_and_register-NoOrphan :
      (repo : Repository) (ext : Extension)
      → NoOrphan repo
      → NoOrphan (load_and_register json world repo ext).0
  unfolding load_and_register
  load_and_register-NoOrphan repo ext all =
      on_if (λ (r : Repository × Option ExtensionError). NoOrphan r.0) (str_eq ext.kind "runtime") _
        _
        (λ _.
          launched-NoOrphan (drop_loaded repo ext.id) ext.id (drop_loaded-NoOrphan repo ext.id all)
            json (load_extension json world.files world.launch ext.source)
            (load_extension-AsAnswered json world.files world.launch ext.source)
            (drop_loaded-get repo ext.id))
        (λ _. all)
