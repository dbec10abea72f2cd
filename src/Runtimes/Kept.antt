-- ===== src/Runtimes/Kept.antt =====
-- What the handlers of internal/api/v1/runtimes.go keep of the table of versions.
use alresia_voltpanel.Prelude.{
  ◌≤◌, ◌≡◌, refl, sym, ap, subst, eq_iff, keep, String, false, Option, none, some, List, [], ◌∷◌,
  str_eq, arith, Bool-cases, inl, inr, ◌==◌, on_if, on_option, tally, Outcome, failed, done, map,
}
use alresia_voltpanel.Plugins.Registry.{Registry, runtime}
use alresia_voltpanel.Runtimes.{
  Runtime, VersionRow, DetectedVersion, Database, RuntimeError, WithVersions, is_pair,
  replace_detected, set_default_version, set_default_of, get_runtime_by_kind, clear_default,
  make_default, list_runtimes,
}
use alresia_voltpanel.Runtimes.Sound.{Sound, is_elsewhere, tally-map}
use alresia_voltpanel.Runtimes.Histories.{detects, picks, perform, perform-Sound, on_found}
use alresia_voltpanel.Runtimes.Loop.{names}
use alresia_voltpanel.Runtimes.Detected.{Replaced, replace_detected_lem}
use alresia_voltpanel.Runtimes.Handlers.{
  Provider, Reply, DetectError, missing, persisted, detect_and_persist, listed_reply,
  detected_reply, redetected, kind_reply, recorded_default, runtime_display_name,
}

on_outcome :
    {E A B : Type 0} (P : B → Type 0) (o : Outcome E A) (x : E → B) (z : A → B)
    → ((e : E) → P (x e))
    → ((a : A) → P (z a))
    → P (elim o [ failed e ↦ x e | done a ↦ z a ])
on_outcome P (failed e) x z p r = p e
on_outcome P (done a) x z p r = r a

-- The rows are sound, and no version of a runtime has fewer of them.
pub record Keeps (db db' : Database) : Type 0 where
  pub sound : Sound db'.versions
  pub more : (i v : String) → tally (is_pair i v) db.versions ≤ tally (is_pair i v) db'.versions

pub same-Keeps : (db : Database) → Sound db.versions → Keeps db db
same-Keeps db s = record { sound = s; more = λ i v. omega arith }

pub then-Keeps : (a b c : Database) → Keeps a b → Keeps b c → Keeps a c
then-Keeps a b c k l = record {
  sound = l.sound;
  more = λ i v. omega (arith, k.more i v, l.more i v);
}

abbrev pub StaysKept : {A : Type 0} → Database → Database × A → Type 0
StaysKept db o = Keeps db o.0

-- rows of one runtime are among those of another's other runtimes
tally_elsewhere :
    (runtime_id i v : String) (rows : List VersionRow)
    → str_eq i runtime_id ≡ false
    → tally (is_pair i v) (keep (is_elsewhere runtime_id) rows) ≡ tally (is_pair i v) rows
tally_elsewhere runtime_id i v [] h = refl
tally_elsewhere runtime_id i v (r ∷ rows) h = ground (
  arith,
  tally_elsewhere runtime_id i v rows h,
  eq_iff r.runtime_id i,
  eq_iff r.runtime_id runtime_id,
  eq_iff i runtime_id,
)

counted-Keeps :
    (db : Database) (kind : String) (seen : List String)
    (o : Database × Outcome RuntimeError Runtime)
    → Sound db.versions
    → Sound o.0.versions
    → Replaced db kind seen o
    → Keeps db o.0
counted-Keeps db kind seen (db', failed e) s s' r = record {
  sound = s';
  more = λ i v. rw r (omega arith);
}
counted-Keeps db kind seen (db', done rt) s s' r = record {
  sound = s';
  more = λ i v. elim (Bool-cases (str_eq i rt.id)) [
    | inl e ↦
        subst (λ j. tally (is_pair j v) db.versions ≤ tally (is_pair j v) db'.versions)
          (sym ((eq_iff i rt.id).0 e)) (ground (arith, r.counts v, s.pairs rt.id v))
    | inr e ↦ omega (
      arith,
      tally_elsewhere rt.id i v db.versions e,
      tally_elsewhere rt.id i v db'.versions e,
      ap (tally (is_pair i v)) r.elsewhere,
    )
  ];
}

module _ (upper : String → String) (db : Database) (s : Sound db.versions) where
  replace_detected-Keeps :
      (id kind name : String) (ds : List (String × DetectedVersion))
      → StaysKept db (replace_detected db id kind name ds)
  unfolding perform
  replace_detected-Keeps id kind name ds =
      counted-Keeps db kind (names ds) (replace_detected db id kind name ds) s
        (perform-Sound db (detects id kind name ds) s) (replace_detected_lem db id kind name ds s)

  set_default_of-Keeps :
      (rt : Runtime) (version : String)
      → Sound (set_default_of db rt version).0.versions
      → StaysKept db (set_default_of db rt version)
  unfolding set_default_of make_default clear_default
  set_default_of-Keeps rt version =
      on_if (λ (o : Database × Option RuntimeError). Sound o.0.versions → Keeps db o.0)
        (tally (is_pair rt.id version) db.versions == 0) _ _ (λ _ _. same-Keeps db s)
        λ _ s'. record {
          sound = s';
          more = λ i v. omega (
            arith,
            tally-map (is_pair i v) (is_pair i v) (make_default rt.id version)
                (map (clear_default rt.id) db.versions) (λ r. ground arith),
            tally-map (is_pair i v) (is_pair i v) (clear_default rt.id) db.versions
                (λ r. ground arith),
          );
        }

  pub set_default_version-Keeps :
      (kind version : String) → StaysKept db (set_default_version db kind version)
  unfolding set_default_version perform
  set_default_version-Keeps kind version =
      on_found (λ (o : Database × Option RuntimeError). Sound o.0.versions → Keeps db o.0)
        (get_runtime_by_kind db kind) _ _ _ (λ e _ _. same-Keeps db s) (λ _ _. same-Keeps db s)
        (λ rt _. set_default_of-Keeps rt version) (perform-Sound db (picks kind version) s)

  persisted_same :
      (o : Database × Outcome RuntimeError Runtime) → StaysKept db o → StaysKept db (persisted o)
  unfolding persisted
  persisted_same (db', failed e) k = k
  persisted_same (db', done rt) k =
      on_outcome (StaysKept db) (list_runtimes db') _ _ (λ e. k) (λ all. k)

  pub detect_and_persist-Keeps : (p : Provider) → StaysKept db (detect_and_persist upper db p)
  unfolding detect_and_persist
  detect_and_persist-Keeps p =
      on_option (StaysKept db) p.detected _ _ (λ _. same-Keeps db s)
        λ ds _.
          let name = runtime_display_name upper p.kind in
          persisted_same (replace_detected db p.new_id p.kind name ds)
            (replace_detected-Keeps p.new_id p.kind name ds)

  detected_same :
      (o : Database × Outcome DetectError WithVersions)
      → StaysKept db o
      → StaysKept db (detected_reply o)
  unfolding detected_reply
  detected_same (db', failed e) k = k
  detected_same (db', done r) k = k

  pub redetected-Keeps : (p : Provider) → StaysKept db (redetected upper db p)
  unfolding redetected
  redetected-Keeps p = detected_same (detect_and_persist upper db p) (detect_and_persist-Keeps p)

  kind_same : (kind : String) (db' : Database) → Keeps db db' → StaysKept db (kind_reply db' kind)
  unfolding kind_reply
  kind_same kind db' k = on_outcome (StaysKept db) (list_runtimes db') _ _ (λ e. k) (λ all. k)

  pub default_same :
      (kind : String) (o : Database × Option RuntimeError)
      → StaysKept db o
      → StaysKept db (recorded_default kind o)
  unfolding recorded_default
  default_same kind (db', some e) k = k
  default_same kind (db', none) k = kind_same kind db' k

  -- a handler that looks the provider up, and then acts
  pub on_provider :
      (ps : Registry Provider) (kind : String) (acts : Provider → Database × Reply)
      → ((p : Provider) → StaysKept db (acts p))
      → StaysKept {A = Reply} db (elim (runtime ps kind) [ none ↦ (db, missing) | some p ↦ acts p ])
  on_provider ps kind acts k =
      on_option (StaysKept {A = Reply} db) (runtime ps kind) _ _ (λ _. same-Keeps db s) (λ p _. k p)

pub listed_same : (db db' : Database) → Keeps db db' → StaysKept db (listed_reply db')
unfolding listed_reply
listed_same db db' k = on_outcome (StaysKept db) (list_runtimes db') _ _ (λ e. k) (λ all. k)
