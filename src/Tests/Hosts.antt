-- ===== src/Tests/Hosts.antt =====
-- The hosts file of a machine with one foreign entry.
use Prim.Native.Char.{code}
use alresia_voltpanel.Prelude.{true, none, some, List, [], ◌∷◌, ◌≡◌, refl, done}
use alresia_voltpanel.Deployment.Text.{is_space, trim_left, trim_right, trim_space}
use alresia_voltpanel.Hosts.Text.{any_char, starts_hash, fields, equal_fold, after_hash, ends_line}
use alresia_voltpanel.Hosts.Provider.{
  normalize_hostname, render_line, new_managed_line, HostsFile, not_managed, sort_names, list,
}
use alresia_voltpanel.Hosts.Runs.{entries}
use alresia_voltpanel.Hosts.Replay.{
  Change, adding, removing, all_clean, managed_names, run, replay, run-replay,
}

abbrev machine : HostsFile
machine = record {
  content = some "# local\n192.168.1.5   nas  # at home\n\n";
  torn = none;
  reads = true;
  writes = true;
}

abbrev changes : List Change
changes = adding " blog.test " ∷ adding "nas" ∷ adding "shop.test" ∷ removing "blog.test" ∷ []

after :
    (run code changes machine).0.content
    ≡ some "# local\n192.168.1.5\tnas\t# at home\n\n\n\n127.0.0.1\tshop.test\t# volt-managed\n"
unfolding run trim_left trim_right is_space any_char starts_hash fields equal_fold render_line
    after_hash new_managed_line ends_line
after = refl

answers : (run code changes machine).1 ≡ none ∷ some not_managed ∷ none ∷ none ∷ []
unfolding run trim_left trim_right is_space any_char starts_hash fields equal_fold render_line
    after_hash new_managed_line ends_line
answers = refl

clean : all_clean changes ≡ true
unfolding all_clean normalize_hostname trim_space trim_left trim_right is_space any_char
clean = refl

run-replay_example :
    (entries (run code changes machine).0 ≡ (replay code changes (entries machine)).0)
    × ((run code changes machine).1 ≡ (replay code changes (entries machine)).1)
    × (list (run code changes machine).0
        ≡ done (sort_names (managed_names (replay code changes (entries machine)).0)))
run-replay_example = run-replay code changes machine refl refl clean
