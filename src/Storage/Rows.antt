-- ===== src/Storage/Rows.antt =====
-- What the `services` table gives back of what was written to it.
use mathlib.Core.Option
use alresia_voltpanel.Prelude.{
  ℕ, ◌*◌, ◌/◌, ◌≡◌, refl, String, ◌&&◌, Bool-cases, Option-cases, inl, inr, Option, none, some,
  List, [], ◌∷◌, str_eq, eq_iff, arith, ap, str_eq_refl, if◌then◌else◌,
}
use alresia_voltpanel.Storage.{
  nullable_int, nullable, text, ServiceRecord, Row, Store, to_row, scan_service_record, upsert_row,
  find_row, upsert_service_record, get_service_record, second,
}

-- The whole seconds of an instant.
abbrev pub whole_seconds : Option ℕ → Option ℕ
whole_seconds = Option.map (λ t. t / second * second)

-- What a record reads as after it was written.
abbrev pub stored : ServiceRecord → ServiceRecord
stored r = record r {
  kind = if str_eq r.kind "" then "native" else r.kind;
  restart_policy = if str_eq r.restart_policy "" then "on-failure" else r.restart_policy;
  started_at = whole_seconds r.started_at;
  exited_at = whole_seconds r.exited_at;
}

nullable_int_back : (p : ℕ) → elim (nullable_int p) as (λ _. ℕ) [ none ↦ 0 | some q ↦ q ] ≡ p
unfolding nullable_int
nullable_int_back p = ground arith

nullable_back : (t : String) → text (nullable t) ≡ t
nullable_back t = ground (arith, eq_iff t "")

scan-to_row :
    (now created : ℕ) (r : ServiceRecord)
    → scan_service_record (record (to_row now r) { created_at = created }) ≡ stored r
unfolding scan_service_record to_row
scan-to_row now created r = ground (arith, eq_iff r.project_id "")

to_row-id : (now : ℕ) (r : ServiceRecord) → (to_row now r).id ≡ r.id
unfolding to_row
to_row-id now r = refl

abbrev scanned : Option Row → Option ServiceRecord
scanned = Option.map scan_service_record

scanned-upsert_row :
    (now : ℕ) (r : ServiceRecord) (ws : List Row) (id : String)
    → scanned (find_row id (upsert_row (to_row now r) ws))
      ≡ (if str_eq r.id id then some (stored r) else scanned (find_row id ws))
unfolding find_row upsert_row to_row
scanned-upsert_row now r [] id = elim (Bool-cases (str_eq r.id id)) [
  | inl e ↦ rw e (ap some (scan-to_row now now r))
  | inr e ↦ rw e
]
scanned-upsert_row now r (w ∷ ws) id = elim (Bool-cases (str_eq w.id r.id)) [
  | inl a ↦ elim (Bool-cases (str_eq r.id id)) [
    | inl e ↦ rw (a, e) (ap some (scan-to_row now w.created_at r))
    | inr e ↦ rw ((eq_iff w.id r.id).0 a, str_eq_refl, e)
  ]
  | inr a ↦ elim (Bool-cases (str_eq r.id id)) [
    | inl e ↦
        rw (a, (eq_iff r.id id).0 e)
          (ground (arith, a, e, scanned-upsert_row now r ws id, eq_iff r.id id, eq_iff w.id r.id))
    | inr e ↦ elim (Bool-cases (str_eq w.id id)) [
      | inl c ↦ rw (a, e, c)
      | inr c ↦ rw (a, c) (scanned-upsert_row now r ws id)
    ]
  ]
]

-- After a write that succeeds, a query for the written id returns the record as stored if the
-- database can be read, and every other query returns what it did before.
pub get-upsert_service_record :
    (now : ℕ) (r : ServiceRecord) (s t : Store)
    → upsert_service_record now r s ≡ some t
    → (id : String)
    → get_service_record id t
      ≡ (if s.reads && str_eq r.id id then some (stored r) else get_service_record id s)
unfolding upsert_service_record get_service_record
get-upsert_service_record now r s t h id = ground (arith, scanned-upsert_row now r s.services id)

find_row-id : (id : String) (ws : List Row) (w : Row) → find_row id ws ≡ some w → w.id ≡ id
unfolding find_row
find_row-id id [] w h = cc
find_row-id id (x ∷ xs) w h = elim (Bool-cases (str_eq x.id id)) [
  | inl e ↦ ground (arith, e, eq_iff x.id id)
  | inr e ↦ find_row-id id xs w (ground (arith, e))
]

-- A query returns a record of the id that was asked for.
pub get_service_record-id :
    (id : String) (s : Store) (r : ServiceRecord) → get_service_record id s ≡ some r → r.id ≡ id
unfolding get_service_record scan_service_record
get_service_record-id id s r h = elim (Option-cases (find_row id s.services)) [
  | inl e ↦ ground (arith, e)
  | inr (w, e) ↦ ground (arith, e, find_row-id id s.services w e)
]
