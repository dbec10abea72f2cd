-- ===== src/Hosts/Replay.antt =====
-- Any sequence of Add and Remove, and then List.
use Prim.Native.Char.{Char}
use mathlib.Core.List.{List, [], ◌∷◌, ◌++◌}
use alresia_voltpanel.Prelude.{
  ℕ, String, Bool, true, not, ◌&&◌, Option, none, some, ◌≡◌, refl, ap, ◌∙◌, inl, inr, arith,
  Outcome, failed, done, Outcome-cases,
}
use alresia_voltpanel.Deployment.Text.{is_space}
use alresia_voltpanel.Hosts.Text.{any_char}
use alresia_voltpanel.Hosts.Reread.{prepend, data_lines}
use alresia_voltpanel.Hosts.Provider.{
  DataLine, Line, HostsFile, HostsError, normalize_hostname, content_lines, sort_names,
  managed_hosts, all_managed, list, add, remove,
}
use alresia_voltpanel.Hosts.Refinement.{add_entry, remove_entry}
use alresia_voltpanel.Hosts.Runs.{
  unchanged, Refines, entries, read-done, add-Refines, remove-Refines,
}

pub data Change : Type 0 where
  adding : String → Change
  removing : String → Change

-- a name to add has no space that normalize_hostname does not look for, such as a line end
unfoldable pub is_clean : Outcome HostsError String → Bool
is_clean (failed e) = true
is_clean (done host) = not (any_char is_space host)

unfoldable pub all_clean : List Change → Bool
unfolding is_clean
all_clean [] = true
all_clean (adding name ∷ cs) = is_clean (normalize_hostname name) && all_clean cs
all_clean (removing name ∷ cs) = all_clean cs

-- the names of Volt's lines
unfoldable pub managed_names : List DataLine → List String
unfolding managed_hosts
managed_names [] = []
managed_names (d ∷ ds) = managed_hosts (some d) ++ managed_names ds

module _ (fold : Char → ℕ) where
  unfoldable pub perform : Change → HostsFile → HostsFile × Option HostsError
  unfolding add remove
  perform (adding name) f = add fold f name
  perform (removing name) f = remove fold f name

  unfoldable pub run : List Change → HostsFile → HostsFile × List (Option HostsError)
  unfolding perform
  run [] f = (f, [])
  run (c ∷ cs) f =
      let (f', answer) = perform c f in let (f'', answers) = run cs f' in (f'', answer ∷ answers)

  -- the same call on the list
  unfoldable pub perform_on : Change → List DataLine → List DataLine × Option HostsError
  unfolding add_entry remove_entry
  perform_on (adding name) ds = elim (normalize_hostname name) [
    | failed e ↦ (ds, some e)
    | done host ↦ add_entry fold host ds
  ]
  perform_on (removing name) ds = elim (normalize_hostname name) [
    | failed e ↦ (ds, some e)
    | done host ↦ remove_entry fold host ds
  ]

  unfoldable pub replay : List Change → List DataLine → List DataLine × List (Option HostsError)
  unfolding perform_on
  replay [] ds = (ds, [])
  replay (c ∷ cs) ds =
      let (ds', answer) = perform_on c ds in
      let (ds'', answers) = replay cs ds' in (ds'', answer ∷ answers)

managed_prepend :
    (o : Option DataLine) (ds : List DataLine)
    → managed_hosts o ++ managed_names ds ≡ managed_names (prepend o ds)
unfolding managed_names managed_hosts prepend
managed_prepend none ds = refl
managed_prepend (some d) ds = refl

all_managed-data_lines : (lines : List Line) → all_managed lines ≡ managed_names (data_lines lines)
unfolding all_managed managed_names data_lines prepend
all_managed-data_lines [] = refl
all_managed-data_lines (l ∷ lines) =
    ap (λ names. managed_hosts l.data_line ++ names) (all_managed-data_lines lines)
    ∙ managed_prepend l.data_line (data_lines lines)

list-entries :
    (f : HostsFile) → f.reads ≡ true → list f ≡ done (sort_names (managed_names (entries f)))
unfolding list entries
list-entries f r =
    rw (list, read-done f r)
      (ap (λ names. done (sort_names names)) (all_managed-data_lines (content_lines f.content)))

module _ (fold : Char → ℕ) (f : HostsFile) (r : f.reads ≡ true) (w : f.writes ≡ true) where
  bad_add :
      (name : String) (e : HostsError)
      → normalize_hostname name ≡ failed e
      → Refines (add fold f name) (entries f, some e)
  unfolding add
  bad_add name e n = rw (add, n) (unchanged f r w (some e))

  bad_remove :
      (name : String) (e : HostsError)
      → normalize_hostname name ≡ failed e
      → Refines (remove fold f name) (entries f, some e)
  unfolding remove
  bad_remove name e n = rw (remove, n) (unchanged f r w (some e))

  perform-Refines :
      (c : Change)
      → all_clean (c ∷ []) ≡ true
      → Refines (perform fold c f) (perform_on fold c (entries f))
  unfolding perform perform_on all_clean is_clean
  perform-Refines (adding name) k = elim (Outcome-cases (normalize_hostname name)) [
    | inl (e, n) ↦ rw (perform_on, n) (bad_add name e n)
    | inr (host, n) ↦
        let clean : (not (any_char is_space host) && true) ≡ true =
          rw (all_clean, is_clean, n) at k in
        rw (perform_on, n) (add-Refines f r w fold name host n (ground (arith, clean)))
  ]
  perform-Refines (removing name) k = elim (Outcome-cases (normalize_hostname name)) [
    | inl (e, n) ↦ rw (perform_on, n) (bad_remove name e n)
    | inr (host, n) ↦ rw (perform_on, n) (remove-Refines f r w fold name host n)
  ]

all_clean-split :
    (c : Change) (cs : List Change)
    → all_clean (c ∷ cs) ≡ true
    → (all_clean (c ∷ []) ≡ true) × (all_clean cs ≡ true)
unfolding all_clean
all_clean-split (adding name) cs k = (ground (arith, k), ground (arith, k))
all_clean-split (removing name) cs k = (refl, k)

-- Any sequence of `Add` and `Remove` on a hosts file of any text that can be read and written,
-- where no added name contains a space character that `normalizeHostname` overlooks, leaves and
-- answers what the same calls give on the list of its lines of data; and `List` then answers the
-- sorted names of the managed ones in that list.
pub run-replay :
    (fold : Char → ℕ) (cs : List Change) (f : HostsFile)
    → f.reads ≡ true
    → f.writes ≡ true
    → all_clean cs ≡ true
    → (entries (run fold cs f).0 ≡ (replay fold cs (entries f)).0)
      × ((run fold cs f).1 ≡ (replay fold cs (entries f)).1)
      × (list (run fold cs f).0 ≡ done (sort_names (managed_names (replay fold cs (entries f)).0)))
unfolding run replay
run-replay fold [] f r w k = (refl, refl, list-entries f r)
run-replay fold (c ∷ cs) f r w k =
    let (one, rest) = all_clean-split c cs k in
    let step : Refines (perform fold c f) (perform_on fold c (entries f)) =
      perform-Refines fold f r w c one in
    let (es, answers, names) =
      run-replay fold cs (perform fold c f).0 step.readable step.writable rest in
    let same : entries (perform fold c f).0 ≡ (perform_on fold c (entries f)).0 =
      step.entries_are in
    (
      es ∙ ap (λ ds. (replay fold cs ds).0) same,
      rw (step.answer_is, answers, same) refl,
      names ∙ ap (λ ds. done (sort_names (managed_names (replay fold cs ds).0))) same,
    )
