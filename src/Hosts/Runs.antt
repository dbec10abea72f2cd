-- ===== src/Hosts/Runs.antt =====
-- Sequences of Add and Remove on a hosts file, and the same calls on the list of its lines of data.
use Prim.Native.Char.{Char}
use mathlib.Core.List.{List, [], ◌∷◌, ◌++◌}
use alresia_voltpanel.Prelude.{
  ℕ, String, true, false, ◌||◌, Option, none, some, ◌≡◌, refl, ap, sym, ◌∙◌, if◌then◌else◌, str_eq,
  on_if, arith, subst, Outcome, failed, done,
}
use alresia_voltpanel.Deployment.Text.{is_space, trim_space, trim_left, trim_right}
use alresia_voltpanel.Hosts.Text.{is_hash, any_char}
use alresia_voltpanel.Hosts.Words.{any_char-weaker}
use alresia_voltpanel.Hosts.Fields.{IsWord}
use alresia_voltpanel.Hosts.Lines.{IsWritable}
use alresia_voltpanel.Hosts.Reread.{
  IsSound, AllSound, data-IsSound, parse_all-AllSound, prepend, data_lines, data_lines-reread,
}
use alresia_voltpanel.Hosts.Provider.{
  DataLine, Line, HostsFile, HostsError, Adding, absent, foreign, already, changed,
  new_managed_line, content_lines, read, write, is_bad, normalize_hostname, settle, search, add,
  is_removed, kept, removes, remove_from, remove, not_managed, not_found,
}
use alresia_voltpanel.Hosts.Refinement.{
  entry, repointed, add_entry, any_entry, without_entries, remove_entry, Found, search-Found,
}

unfoldable pub entries : HostsFile → List DataLine
entries f = data_lines (content_lines f.content)

-- what a call leaves behind and answers is what the call on the list gives
pub record Refines (r : HostsFile × Option HostsError) (a : List DataLine × Option HostsError)
    : Type 0 where
  pub entries_are : entries r.0 ≡ a.0
  pub answer_is : r.1 ≡ a.1
  pub readable : r.0.reads ≡ true
  pub writable : r.0.writes ≡ true

content_lines-AllSound : (content : Option String) → AllSound (content_lines content)
unfolding content_lines
content_lines-AllSound none = refl
content_lines-AllSound (some text) = parse_all-AllSound text

prepend_append :
    (o : Option DataLine) (xs ys : List DataLine) → prepend o xs ++ ys ≡ prepend o (xs ++ ys)
unfolding prepend
prepend_append none xs ys = refl
prepend_append (some d) xs ys = refl

data_lines-append : (xs ys : List Line) → data_lines (xs ++ ys) ≡ data_lines xs ++ data_lines ys
unfolding data_lines prepend
data_lines-append [] ys = refl
data_lines-append (x ∷ xs) ys =
    ap (prepend x.data_line) (data_lines-append xs ys)
    ∙ sym (prepend_append x.data_line (data_lines xs) (data_lines ys))

append-AllSound : (xs ys : List Line) → AllSound xs → AllSound ys → AllSound (xs ++ ys)
append-AllSound [] ys h k = k
append-AllSound (x ∷ xs) ys (h, hs) k = (h, append-AllSound xs ys hs k)

new_data : (host : String) → (new_managed_line host).data_line ≡ some (entry host)
unfolding new_managed_line
new_data host = refl

new_data_lines : (host : String) → data_lines (new_managed_line host ∷ []) ≡ entry host ∷ []
unfolding data_lines prepend new_managed_line
new_data_lines host = refl

entry-IsWritable : (host : String) → IsWord host → IsWritable (entry host)
unfolding any_char is_space trim_space trim_left trim_right
entry-IsWritable host w = record {
  ip_word = record { some_char = refl; no_space = refl; no_hash = refl };
  first_host = host;
  other_hosts = [];
  hosts_are = refl;
  host_words = (w, refl);
  comment_trimmed = refl;
  comment_line = refl;
  managed_is = refl;
}

abbrev Named : Outcome HostsError String → Type 0
Named (failed e) = true ≡ true
Named (done h) = (str_eq h "" ≡ false) × (any_char is_bad h ≡ false)

normalize_hostname-Named : (hostname : String) → Named (normalize_hostname hostname)
unfolding normalize_hostname
normalize_hostname-Named hostname =
    let h : String = trim_space hostname in
    on_if Named (str_eq h "") _ _ (λ _. refl)
      (λ n. on_if Named (any_char is_bad h) _ _ (λ _. refl) (λ b. (n, b)))

-- a name that Add accepts is a word, where it has no space of Unicode
normalize_hostname-IsWord :
    (hostname host : String)
    → normalize_hostname hostname ≡ done host
    → any_char is_space host ≡ false
    → IsWord host
normalize_hostname-IsWord hostname host n free =
    let (s, b) = subst Named n (normalize_hostname-Named hostname) in
    record {
      some_char = s;
      no_space = free;
      no_hash = any_char-weaker is_hash is_bad (λ c h. ground (arith, h)) host b;
    }

module _ (fold : Char → ℕ) (host : String) where
  any_prepend :
      (o : Option DataLine) (ds : List DataLine)
      → (is_removed fold host o || any_entry fold host ds) ≡ any_entry fold host (prepend o ds)
  unfolding prepend is_removed any_entry
  any_prepend none ds = refl
  any_prepend (some d) ds = refl

  skip_prepend :
      (o : Option DataLine) (ds : List DataLine)
      → is_removed fold host o ≡ true
      → without_entries fold host (prepend o ds) ≡ without_entries fold host ds
  unfolding prepend is_removed without_entries
  skip_prepend none ds h = cc
  skip_prepend (some d) ds h = rw h refl

  keep_prepend :
      (o : Option DataLine) (ds : List DataLine)
      → is_removed fold host o ≡ false
      → without_entries fold host (prepend o ds) ≡ prepend o (without_entries fold host ds)
  unfolding prepend is_removed without_entries
  keep_prepend none ds h = refl
  keep_prepend (some d) ds h = rw h refl

  removes-data :
      (lines : List Line) → removes fold host lines ≡ any_entry fold host (data_lines lines)
  unfolding removes any_entry data_lines prepend is_removed
  removes-data [] = refl
  removes-data (l ∷ lines) =
      ap (λ b. is_removed fold host l.data_line || b) (removes-data lines)
      ∙ any_prepend l.data_line (data_lines lines)

  kept-data :
      (lines : List Line)
      → data_lines (kept fold host lines) ≡ without_entries fold host (data_lines lines)
  unfolding kept data_lines without_entries
  kept-data [] = refl
  kept-data (l ∷ lines) =
      on_if
        (λ ls. data_lines ls ≡ without_entries fold host (prepend l.data_line (data_lines lines)))
        (is_removed fold host l.data_line) (kept fold host lines) (l ∷ kept fold host lines)
        (λ r. kept-data lines ∙ sym (skip_prepend l.data_line (data_lines lines) r))
        (λ r.
          ap (prepend l.data_line) (kept-data lines)
          ∙ sym (keep_prepend l.data_line (data_lines lines) r))

  kept-AllSound : (lines : List Line) → AllSound lines → AllSound (kept fold host lines)
  unfolding kept
  kept-AllSound [] h = refl
  kept-AllSound (l ∷ lines) (h, hs) =
      on_if AllSound (is_removed fold host l.data_line) (kept fold host lines)
        (l ∷ kept fold host lines) (λ _. kept-AllSound lines hs) (λ _. (h, kept-AllSound lines hs))

pub read-done : (f : HostsFile) → f.reads ≡ true → read f ≡ done (content_lines f.content)
unfolding read
read-done f r =
    on_if (λ o. o ≡ done (content_lines f.content)) f.reads _ _ (λ _. refl)
      (λ n. ground (arith, n, r))

module _ (f : HostsFile) (reads : f.reads ≡ true) (writes : f.writes ≡ true) where
  pub unchanged : (e : Option HostsError) → Refines (f, e) (entries f, e)
  unchanged e = record { entries_are = refl; answer_is = refl; readable = reads; writable = writes }

  written :
      (lines : List Line) (ds : List DataLine)
      → AllSound lines
      → data_lines lines ≡ ds
      → Refines (write f lines) (ds, none)
  unfolding write entries content_lines
  written lines ds all e =
      on_if (λ r. Refines r (ds, none)) f.writes _ _
        (λ w. record {
          entries_are = data_lines-reread lines all ∙ e;
          answer_is = refl;
          readable = reads;
          writable = writes;
        })
        (λ w. ground (arith, w, writes))

  settled :
      (fold : Char → ℕ) (host : String) (a : Adding)
      → IsWord host
      → Found fold host (entries f) a
      → Refines (settle f (content_lines f.content) host a) (add_entry fold host (entries f))
  unfolding settle add_entry entries
  settled fold host absent w e =
      let lines : List Line = content_lines f.content in
      let new : IsSound (new_managed_line host) =
        data-IsSound (new_managed_line host) (entry host) (new_data host)
          (entry-IsWritable host w) in
      let all : AllSound (lines ++ new_managed_line host ∷ []) =
        append-AllSound lines (new_managed_line host ∷ []) (content_lines-AllSound f.content)
          (new, refl) in
      let same : data_lines (lines ++ new_managed_line host ∷ [])
          ≡ data_lines lines ++ entry host ∷ [] =
        data_lines-append lines (new_managed_line host ∷ [])
        ∙ ap (λ ds. data_lines lines ++ ds) (new_data_lines host) in
      rw (add_entry, e)
        (written (lines ++ new_managed_line host ∷ []) (entries f ++ entry host ∷ []) all same)
  settled fold host foreign w (d, e, m) = rw (add_entry, e, m) (unchanged (some not_managed))
  settled fold host already w (d, e, m, r) = rw (add_entry, e, m, r) (unchanged none)
  settled fold host (changed lines) w (d, e, m, r, all) =
      rw (add_entry, e, m) (written lines (repointed fold host (entries f)) all r)

  pub add-Refines :
      (fold : Char → ℕ) (hostname host : String)
      → normalize_hostname hostname ≡ done host
      → any_char is_space host ≡ false
      → Refines (add fold f hostname) (add_entry fold host (entries f))
  unfolding add entries
  add-Refines fold hostname host n free =
      rw (add, n, read-done f reads)
        (settled fold host (search fold host (content_lines f.content))
          (normalize_hostname-IsWord hostname host n free)
          (search-Found fold host (content_lines f.content) (content_lines-AllSound f.content)))

  remove_from-Refines :
      (fold : Char → ℕ) (host : String)
      → Refines
          (remove_from fold f host (content_lines f.content))
          (remove_entry fold host (entries f))
  unfolding remove_from remove_entry entries
  remove_from-Refines fold host =
      let lines : List Line = content_lines f.content in
      rw (sym (removes-data fold host lines)) (
        on_if
          (λ r. Refines r (
            if removes fold host lines
            then (without_entries fold host (data_lines lines), none)
            else (data_lines lines, some not_found)))
          (removes fold host lines) _ _
          (λ b. rw b (
            written (kept fold host lines) (without_entries fold host (data_lines lines))
              (kept-AllSound fold host lines (content_lines-AllSound f.content))
              (kept-data fold host lines)))
          (λ b. rw b (unchanged (some not_found))))

  pub remove-Refines :
      (fold : Char → ℕ) (hostname host : String)
      → normalize_hostname hostname ≡ done host
      → Refines (remove fold f hostname) (remove_entry fold host (entries f))
  unfolding remove
  remove-Refines fold hostname host n =
      rw (remove, n, read-done f reads) (remove_from-Refines fold host)
