-- ===== src/Runtimes/Requests.antt =====
-- Sequences of requests to the handlers of internal/api/v1/runtimes.go.
use alresia_voltpanel.Prelude.{◌≤◌, String, Bool, not, List, [], ◌∷◌, str_eq, arith, on_if, tally}
use alresia_voltpanel.Plugins.Registry.{Registry, runtimes}
use alresia_voltpanel.Runtimes.{Database, is_pair, set_default_version}
use alresia_voltpanel.Runtimes.Sound.{Sound}
use alresia_voltpanel.Runtimes.Histories.{new_database, new_database-Sound}
use alresia_voltpanel.Runtimes.Handlers.{
  Provider, detect_and_persist, refresh_all, list_runtimes_handler, redetected, detect_runtime_kind,
  set_default_runtime_version, install_runtime_version, remove_runtime_version,
}
use alresia_voltpanel.Runtimes.Kept.{
  Keeps, same-Keeps, then-Keeps, StaysKept, listed_same, detect_and_persist-Keeps, redetected-Keeps,
  default_same, on_provider, set_default_version-Keeps,
}

pub data Request : Type 0 where
  lists : Registry Provider → Request
  detects_kind : Registry Provider → String → Request
  sets_default : Registry Provider → String → String → Request
  installs : Registry Provider → String → String → Request
  removes : Registry Provider → String → Bool → Request
  -- the file of the database goes away or comes back
  reaches : Bool → Request

unfoldable pub handle : (String → String) → Database → Request → Database
handle upper db (lists ps) = (list_runtimes_handler upper db ps).0
handle upper db (detects_kind ps kind) = (detect_runtime_kind upper db ps kind).0
handle upper db (sets_default ps kind version) = (set_default_runtime_version db ps kind version).0
handle upper db (installs ps kind version) = (install_runtime_version upper db ps kind version).0
handle upper db (removes ps kind confirmed) = (remove_runtime_version upper db ps kind confirmed).0
handle upper db (reaches up) = record db { is_up = up }

unfoldable pub handle_all : (String → String) → Database → List Request → Database
unfolding handle
handle_all upper db [] = db
handle_all upper db (q ∷ qs) = handle_all upper (handle upper db q) qs

module _ (upper : String → String) where
  refresh_all-Keeps :
      (db : Database) (ps : List Provider) → Sound db.versions → Keeps db (refresh_all upper db ps)
  unfolding refresh_all
  refresh_all-Keeps db [] s = same-Keeps db s
  refresh_all-Keeps db (p ∷ ps) s =
      let db' = (detect_and_persist upper db p).0 in
      let k = detect_and_persist-Keeps upper db s p in
      then-Keeps db db' (refresh_all upper db' ps) k (refresh_all-Keeps db' ps k.sound)

  handle-Keeps : (db : Database) (q : Request) → Sound db.versions → Keeps db (handle upper db q)
  unfolding handle list_runtimes_handler detect_runtime_kind set_default_runtime_version
      install_runtime_version remove_runtime_version
  handle-Keeps db (lists ps) s =
      listed_same db (refresh_all upper db (runtimes ps)) (refresh_all-Keeps db (runtimes ps) s)
  handle-Keeps db (detects_kind ps kind) s =
      on_provider upper db s ps kind (redetected upper db) (redetected-Keeps upper db s)
  handle-Keeps db (sets_default ps kind version) s = on_provider upper db s ps kind _ λ p.
      on_if (StaysKept db) p.acts _ _
        (λ _.
          default_same upper db s kind (set_default_version db kind version)
            (set_default_version-Keeps upper db s kind version))
        λ _. same-Keeps db s
  handle-Keeps db (installs ps kind version) s =
      on_if (StaysKept db) (str_eq version "") _ _ (λ _. same-Keeps db s)
        λ _. on_provider upper db s ps kind _ λ p.
          on_if (StaysKept db) p.acts _ _ (λ _. redetected-Keeps upper db s p) λ _. same-Keeps db s
  handle-Keeps db (removes ps kind confirmed) s =
      on_if (StaysKept db) (not confirmed) _ _ (λ _. same-Keeps db s)
        λ _. on_provider upper db s ps kind _ λ p.
          on_if (StaysKept db) p.acts _ _ (λ _. redetected-Keeps upper db s p) λ _. same-Keeps db s
  handle-Keeps db (reaches up) s = record { sound = s; more = λ i v. omega arith }

  handle_all-Keeps :
      (db : Database) (qs : List Request) → Sound db.versions → Keeps db (handle_all upper db qs)
  unfolding handle_all
  handle_all-Keeps db [] s = same-Keeps db s
  handle_all-Keeps db (q ∷ qs) s =
      let k = handle-Keeps db q s in
      then-Keeps db (handle upper db q) (handle_all upper (handle upper db q) qs) k
        (handle_all-Keeps (handle upper db q) qs k.sound)

  -- After any requests to the handlers of runtimes, whatever the providers answer and also
  -- while the database fails, a version of a runtime has at most one row, and a row that it has
  -- is still there after any further requests.
  pub handle_all-more :
      (qs later : List Request) (runtime_id version : String)
      → let db = handle_all upper new_database qs in
        let db' = handle_all upper db later in
        (tally (is_pair runtime_id version) db.versions
          ≤ tally (is_pair runtime_id version) db'.versions)
        × (tally (is_pair runtime_id version) db'.versions ≤ 1)
  handle_all-more qs later i v =
      let db = handle_all upper new_database qs in
      let k = handle_all-Keeps new_database qs new_database-Sound in
      let l = handle_all-Keeps db later k.sound in (l.more i v, l.sound.pairs i v)
