-- ===== src/Hosts/Refinement.antt =====
-- The hosts file as the list of its lines of data, whatever its text: Add and Remove on that list.
use Prim.Native.Char.{Char}
use mathlib.Core.List.{List, [], ◌∷◌, ◌++◌}
use alresia_voltpanel.Prelude.{
  ℕ, String, Bool, true, false, not, ◌||◌, Option, none, some, ◌≡◌, refl, ap, sym, ◌∙◌, inl, inr,
  if◌then◌else◌, str_eq, eq_iff, Option-cases, on_if, arith, subst,
}
use alresia_voltpanel.Deployment.Text.{is_space}
use alresia_voltpanel.Hosts.Text.{any_char}
use alresia_voltpanel.Hosts.Lines.{IsWritable}
use alresia_voltpanel.Hosts.Reread.{
  IsSound, AllSound, CanWrite, parse_data_line-CanWrite, data-IsSound, prepend, data_lines,
}
use alresia_voltpanel.Hosts.Provider.{
  DataLine, Line, HostsError, Adding, absent, foreign, already, changed, managed_ip, managed_marker,
  render_line, past, pointed, take_over, has_host, search, is_entry, not_managed, not_found,
}

abbrev pub at_home : DataLine → DataLine
at_home d = record d { ip = managed_ip }

abbrev pub entry : String → DataLine
entry host = record { ip = managed_ip; hosts = host ∷ []; comment = managed_marker; managed = true }

module _ (fold : Char → ℕ) (host : String) where
  -- the first line with that name
  unfoldable pub first_with : List DataLine → Option DataLine
  first_with [] = none
  first_with (d ∷ ds) = if has_host fold d host then some d else first_with ds

  -- that line at the address of Volt
  unfoldable pub repointed : List DataLine → List DataLine
  repointed [] = []
  repointed (d ∷ ds) =
      let rest = repointed ds in if has_host fold d host then at_home d ∷ ds else d ∷ rest

  unfoldable pub add_entry : List DataLine → List DataLine × Option HostsError
  add_entry ds = elim (first_with ds) [
    | none ↦ (ds ++ entry host ∷ [], none)
    | some d ↦ if d.managed then (repointed ds, none) else (ds, some not_managed)
  ]

  unfoldable pub any_entry : List DataLine → Bool
  any_entry [] = false
  any_entry (d ∷ ds) = is_entry fold host d || any_entry ds

  unfoldable pub without_entries : List DataLine → List DataLine
  without_entries [] = []
  without_entries (d ∷ ds) =
      let rest = without_entries ds in if is_entry fold host d then rest else d ∷ rest

  unfoldable pub remove_entry : List DataLine → List DataLine × Option HostsError
  remove_entry ds = if any_entry ds then (without_entries ds, none) else (ds, some not_found)

  -- what the search of Add says of the lines of data
  abbrev pub Found : List DataLine → Adding → Type 0
  Found ds absent = first_with ds ≡ none
  Found ds foreign = (d : DataLine) × (first_with ds ≡ some d) × (d.managed ≡ false)
  Found ds already =
      (d : DataLine) × (first_with ds ≡ some d) × (d.managed ≡ true) × (repointed ds ≡ ds)
  Found ds (changed lines) =
      (d : DataLine) × (first_with ds ≡ some d)
      × (d.managed ≡ true)
      × (data_lines lines ≡ repointed ds)
      × AllSound lines

  abbrev Skips : Option DataLine → Type 0
  Skips none = true ≡ true
  Skips (some d) = has_host fold d host ≡ false

  skip_first :
      (o : Option DataLine) (ds : List DataLine)
      → Skips o
      → first_with (prepend o ds) ≡ first_with ds
  unfolding first_with prepend
  skip_first none ds h = refl
  skip_first (some d) ds h = rw h refl

  skip_repointed :
      (o : Option DataLine) (ds : List DataLine)
      → Skips o
      → repointed (prepend o ds) ≡ prepend o (repointed ds)
  unfolding repointed prepend
  skip_repointed none ds h = refl
  skip_repointed (some d) ds h = rw h refl

  past-Found :
      (l : Line) (ds : List DataLine) (a : Adding)
      → IsSound l
      → Skips l.data_line
      → Found ds a
      → Found (prepend l.data_line ds) (past l a)
  unfolding past data_lines
  past-Found l ds absent s h e = skip_first l.data_line ds h ∙ e
  past-Found l ds foreign s h (d, e, m) = (d, skip_first l.data_line ds h ∙ e, m)
  past-Found l ds already s h (d, e, m, r) = (
    d,
    skip_first l.data_line ds h ∙ e,
    m,
    skip_repointed l.data_line ds h ∙ ap (prepend l.data_line) r,
  )
  past-Found l ds (changed lines) s h (d, e, m, r, all) = (
    d,
    skip_first l.data_line ds h ∙ e,
    m,
    ap (prepend l.data_line) r ∙ sym (skip_repointed l.data_line ds h),
    (s, all),
  )

  writable : (l : Line) (d : DataLine) → l.data_line ≡ some d → IsSound l → IsWritable d
  writable l d e s =
      subst CanWrite (s.parsed ∙ e) (parse_data_line-CanWrite (render_line l) s.one_line)

  home-IsWritable : (d : DataLine) → IsWritable d → IsWritable (at_home d)
  unfolding any_char is_space
  home-IsWritable d w = record {
    ip_word = record { some_char = refl; no_space = refl; no_hash = refl };
    first_host = w.first_host;
    other_hosts = w.other_hosts;
    hosts_are = w.hosts_are;
    host_words = w.host_words;
    comment_trimmed = w.comment_trimmed;
    comment_line = w.comment_line;
    managed_is = w.managed_is;
  }

  take_over-Found :
      (l : Line) (d : DataLine) (lines : List Line)
      → l.data_line ≡ some d
      → IsSound l
      → AllSound lines
      → has_host fold d host ≡ true
      → Found (d ∷ data_lines lines) (take_over l d lines)
  unfolding take_over first_with repointed data_lines prepend
  take_over-Found l d lines e s all h =
      let ds : List DataLine = d ∷ data_lines lines in
      let f : first_with ds ≡ some d = rw (first_with, h) refl in
      let r : repointed ds ≡ at_home d ∷ data_lines lines = rw (repointed, h) refl in
      on_if (Found ds) (not d.managed) foreign _ (λ n. (d, f, ground (arith, n)))
        (λ n.
          let m : d.managed ≡ true = ground (arith, n) in
          on_if (Found ds) (str_eq d.ip managed_ip) already (changed (pointed l d ∷ lines))
            (λ i.
              let same : at_home d ≡ d =
                ap (λ x. record d { ip = x }) (sym ((eq_iff d.ip managed_ip).0 i)) in
              (d, f, m, r ∙ ap (λ x. x ∷ data_lines lines) same))
            (λ i.
              let sound : IsSound (pointed l d) =
                data-IsSound (pointed l d) (at_home d) refl
                  (home-IsWritable d (writable l d e s)) in
              (d, f, m, sym r, (sound, all))))

  pub search-Found :
      (lines : List Line) → AllSound lines → Found (data_lines lines) (search fold host lines)
  unfolding search data_lines first_with prepend
  search-Found [] h = refl
  search-Found (l ∷ lines) (s, all) =
      let ds : List DataLine = data_lines lines in
      let rest : Adding = past l (search fold host lines) in
      let skipping : Skips l.data_line → Found (prepend l.data_line ds) rest =
        λ h. past-Found l ds (search fold host lines) s h (search-Found lines all) in
      let at_line : Option DataLine → Adding = λ o. elim o [
        | none ↦ rest
        | some d ↦ if has_host fold d host then take_over l d lines else rest
      ] in
      elim (Option-cases l.data_line) [
        | inl e ↦
            subst (λ o. Found (prepend o ds) (at_line o)) (sym e)
              (subst (λ o. Found (prepend o ds) rest) e (skipping (subst Skips (sym e) refl)))
        | inr (d, e) ↦
            subst (λ o. Found (prepend o ds) (at_line o)) (sym e)
              (on_if (Found (d ∷ ds)) (has_host fold d host) (take_over l d lines) rest
                (λ h. take_over-Found l d lines e s all h)
                (λ h. subst (λ o. Found (prepend o ds) rest) e (skipping (subst Skips (sym e) h))))
      ]
