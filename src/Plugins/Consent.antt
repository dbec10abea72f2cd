-- ===== src/Plugins/Consent.antt =====
-- What the rows say of the processes that are loaded.
use alresia_voltpanel.Prelude.{
  String, Bool, true, false, not, ◌&&◌, ◌||◌, Option, none, some, List, [], ◌∷◌, ◌++◌, ◌≡◌, refl,
  ap, sym, ◌∙◌, subst, inl, inr, str_eq, eq_iff, arith, if◌then◌else◌, on_if, Bool-cases,
  Option-cases, Outcome, failed, done, Outcome-cases,
}
use alresia_voltpanel.Prelude.Dict.{get, get-remove, string_key}
use alresia_voltpanel.Prelude.Table.{find_by, has_key, change, delete_by, unique}
use alresia_voltpanel.Plugins.Protocol.{Json}
use alresia_voltpanel.Plugins.Extensions.{
  Extension, Row, row_id, Repository, World, ExtensionError, unload, withdraw, scan_extension,
  get_extension, found, insert_by_name, by_name, scan_all,
}

-- whether a row of that id says enabled
unfoldable pub is_enabled : String → List Row → Bool
is_enabled id [] = false
is_enabled id (r ∷ rows) = (str_eq r.id id && r.enabled) || is_enabled id rows

abbrev pub with_enabled : Bool → Row → Row
with_enabled b r = record r { enabled = b }

pub is_enabled-change :
    (id v : String) (b : Bool) (rows : List Row)
    → is_enabled v (change row_id id (with_enabled b) rows)
      ≡ (if str_eq id v then has_key row_id id rows && b else is_enabled v rows)
unfolding is_enabled change has_key
is_enabled-change id v b [] = ground arith
is_enabled-change id v b (r ∷ rows) =
    ground (arith, is_enabled-change id v b rows, eq_iff r.id id, eq_iff r.id v, eq_iff id v)

pub is_enabled-delete_by :
    (id v : String) (rows : List Row)
    → is_enabled v (delete_by row_id id rows) ≡ (if str_eq id v then false else is_enabled v rows)
unfolding is_enabled delete_by
is_enabled-delete_by id v [] = ground arith
is_enabled-delete_by id v (r ∷ rows) =
    ground (arith, is_enabled-delete_by id v rows, eq_iff r.id id, eq_iff r.id v, eq_iff id v)

pub is_enabled-append :
    (v : String) (rows : List Row) (r : Row)
    → is_enabled v rows ≡ true
    → is_enabled v (rows ++ r ∷ []) ≡ true
unfolding is_enabled
is_enabled-append v [] r h = cc
is_enabled-append v (s ∷ rows) r h = ground (arith, is_enabled-append v rows r)

no_row-is_enabled :
    (v : String) (rows : List Row) → has_key row_id v rows ≡ false → is_enabled v rows ≡ false
unfolding is_enabled has_key
no_row-is_enabled v [] h = refl
no_row-is_enabled v (r ∷ rows) h = ground (arith, no_row-is_enabled v rows)

-- where ids are unique, the row that is found decides
pub found-is_enabled :
    (id : String) (rows : List Row) (r : Row)
    → unique row_id rows ≡ true
    → find_by row_id id rows ≡ some r
    → is_enabled id rows ≡ r.enabled
unfolding is_enabled find_by unique
found-is_enabled id [] r u h = cc
found-is_enabled id (s ∷ rows) r u h = elim (Bool-cases (str_eq s.id id)) [
  | inl same ↦
      let e : some s ≡ some r = ground (arith, h, same) in
      let n : has_key row_id s.id rows ≡ false = ground (arith, u) in
      let m : is_enabled id rows ≡ false =
        no_row-is_enabled id rows
          (subst (λ i. has_key row_id i rows ≡ false) ((eq_iff s.id id).0 same) n) in
      let q : s.enabled ≡ r.enabled =
        ap (λ (o : Option Row). elim o [ none ↦ true | some e ↦ e.enabled ]) e in
      ground (arith, same, m, q)
  | inr apart ↦ ground (arith, h, u, apart, found-is_enabled id rows r)
]

insert_by_name-is_enabled :
    (v : String) (r : Row) (rows : List Row)
    → is_enabled v (insert_by_name r rows) ≡ ((str_eq r.id v && r.enabled) || is_enabled v rows)
unfolding is_enabled insert_by_name
insert_by_name-is_enabled v r [] = refl
insert_by_name-is_enabled v r (s ∷ rows) = ground (arith, insert_by_name-is_enabled v r rows)

by_name-is_enabled :
    (v : String) (rows : List Row) → is_enabled v (by_name rows) ≡ is_enabled v rows
unfolding is_enabled by_name
by_name-is_enabled v [] = refl
by_name-is_enabled v (r ∷ rows) =
    ground (arith, by_name-is_enabled v rows, insert_by_name-is_enabled v r (by_name rows))

-- whether a row says enabled of every extension that says so
unfoldable pub backed : List Row → List Extension → Bool
unfolding is_enabled
backed rows [] = true
backed rows (ext ∷ exts) = (not ext.enabled || is_enabled ext.id rows) && backed rows exts

abbrev Agrees : Row → Outcome ExtensionError Extension → Type 0
Agrees r (failed e) = true ≡ true
Agrees r (done ext) = (ext.id ≡ r.id) × (ext.enabled ≡ r.enabled)

scan_extension-Agrees : (json : Json) (r : Row) → Agrees r (scan_extension json r)
unfolding scan_extension
scan_extension-Agrees json r = elim (Bool-cases (str_eq r.permissions "")) [
  | inl f ↦ rw f (refl, refl)
  | inr f ↦ elim (Option-cases (json.parse_permissions r.permissions)) [
    | inl g ↦ rw (f, g) refl
    | inr (permissions, g) ↦ rw (f, g) (refl, refl)
  ]
]

abbrev AllBacked : List Row → Outcome ExtensionError (List Extension) → Type 0
AllBacked all (failed e) = true ≡ true
AllBacked all (done exts) = backed all exts ≡ true

scan_all-AllBacked :
    (json : Json) (rows all : List Row)
    → ((v : String) → is_enabled v rows ≡ true → is_enabled v all ≡ true)
    → AllBacked all (scan_all json rows)
unfolding scan_all backed is_enabled
scan_all-AllBacked json [] all within = refl
scan_all-AllBacked json (r ∷ rows) all within = elim (Outcome-cases (scan_extension json r)) [
  | inl (e, f) ↦ rw (scan_all, f) refl
  | inr (ext, f) ↦ elim (Outcome-cases (scan_all json rows)) [
    | inl (e, g) ↦ rw (scan_all, f, g) refl
    | inr (exts, g) ↦
        let (a, b) = subst (Agrees r) f (scan_extension-Agrees json r) in
        let c : backed all exts ≡ true =
          subst (AllBacked all) g
            (scan_all-AllBacked json rows all (λ v k. within v (ground (arith, k)))) in
        rw (scan_all, f, g) (ground (arith, within ext.id, a, b, c, eq_iff r.id ext.id))
  ]
]

-- the extensions that the table lists say nothing that it does not
pub list-backed :
    (json : Json) (rows : List Row) (exts : List Extension)
    → scan_all json (by_name rows) ≡ done exts
    → backed rows exts ≡ true
list-backed json rows exts h =
    subst (AllBacked rows) h
      (scan_all-AllBacked json (by_name rows) rows (λ v k. sym (by_name-is_enabled v rows) ∙ k))

abbrev FoundBy : String → List Row → Outcome ExtensionError Extension → Type 0
FoundBy id rows (failed e) = true ≡ true
FoundBy id rows (done ext) =
    (r : Row) × (find_by row_id id rows ≡ some r) × (ext.id ≡ id) × (ext.enabled ≡ r.enabled)

find_by-id : (id : String) (rows : List Row) (r : Row) → find_by row_id id rows ≡ some r → r.id ≡ id
unfolding find_by
find_by-id id [] r h = cc
find_by-id id (s ∷ rows) r h = elim (Bool-cases (str_eq s.id id)) [
  | inl same ↦
      let e : some s ≡ some r = ground (arith, h, same) in
      sym (ap (λ (o : Option Row). elim o [ none ↦ id | some e ↦ e.id ]) e)
      ∙ (eq_iff s.id id).0 same
  | inr apart ↦ find_by-id id rows r (ground (arith, h, apart))
]

get_extension-FoundBy :
    (json : Json) (world : World) (repo : Repository) (id : String)
    → FoundBy id repo.rows (get_extension json world repo id)
unfolding get_extension found
get_extension-FoundBy json world repo id =
    on_if (FoundBy id repo.rows) world.queries _ _
      (λ _. elim (Option-cases (find_by row_id id repo.rows)) [
        | inl f ↦ rw f refl
        | inr (r, f) ↦
            rw (f, found)
              (elim (Outcome-cases (scan_extension json r)) [
                | inl (e, g) ↦ rw g refl
                | inr (ext, g) ↦
                    let (a, b) = subst (Agrees r) g (scan_extension-Agrees json r) in
                    rw g (r, f, a ∙ find_by-id id repo.rows r f, b)
              ])
      ])
      (λ _. refl)

pub get_extension-found :
    (json : Json) (world : World) (repo : Repository) (id : String) (ext : Extension)
    → get_extension json world repo id ≡ done ext
    → (r : Row) × (find_by row_id id repo.rows ≡ some r) × (ext.id ≡ id) × (ext.enabled ≡ r.enabled)
get_extension-found json world repo id ext h =
    subst (FoundBy id repo.rows) h (get_extension-FoundBy json world repo id)

pub unload-get :
    (repo : Repository) (id v : String)
    → get v (unload repo id).loaded ≡ (if str_eq id v then none else get v repo.loaded)
unfolding unload withdraw
unload-get repo id v = elim (Option-cases (get id repo.loaded)) [
  | inl f ↦ elim (Bool-cases (str_eq id v)) [
    | inl same ↦
        rw (unload, f, same) (subst (λ i. get i repo.loaded ≡ none) ((eq_iff id v).0 same) f)
    | inr apart ↦ rw (unload, f, apart) refl
  ]
  | inr (h, f) ↦ rw (unload, f, withdraw, get-remove id v repo.loaded) refl
]

pub unload-rows : (repo : Repository) (id : String) → (unload repo id).rows ≡ repo.rows
unfolding unload withdraw
unload-rows repo id = elim (Option-cases (get id repo.loaded)) [
  | inl f ↦ rw (unload, f) refl
  | inr (h, f) ↦ rw (unload, f) refl
]
