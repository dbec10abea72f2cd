-- ===== src/Hosts/Provider.antt =====
-- internal/providers/domainprovider/hosts/hosts.go: the lines of the file, and Add, Remove, List and
-- Conflicts. A provider is its file; `fold` is the case folding of the names.
use Prim.Native.Char.{Char, code}
use Prim.Native.String.{compare}
use Prim.Native.Nat.{Ordering}
use alresia_voltpanel.Prelude.{
  ℕ, String, Bool, true, false, not, ◌&&◌, ◌||◌, Option, none, some, List, [], ◌∷◌, ◌++◌, map, ◌==◌,
  if◌then◌else◌, str_eq, concat, Outcome, failed, done,
}
use alresia_voltpanel.Deployment.Text.{trim_space}
use alresia_voltpanel.Hosts.Text.{
  is_hash, split_lines, join, fields, before_hash, after_hash, starts_hash, ends_line, any_char,
  equal_fold,
}

abbrev pub managed_ip : String
managed_ip = "127.0.0.1"

abbrev pub managed_marker : String
managed_marker = "volt-managed"

pub record DataLine : Type 0 where
  pub ip : String
  pub hosts : List String
  pub comment : String
  pub managed : Bool

pub record Line : Type 0 where
  pub raw : String
  pub data_line : Option DataLine

-- `content` is none where the file does not exist. `torn` is what a write that fails leaves in it:
-- os.WriteFile truncates the file first, and may write a part.
pub record HostsFile : Type 0 where
  pub content : Option String
  pub torn : Option String
  pub reads : Bool
  pub writes : Bool

pub data HostsError : Type 0 where
  not_found : HostsError
  empty_hostname : HostsError
  invalid_characters : HostsError
  not_read : HostsError
  not_written : HostsError
  not_managed : HostsError

unfoldable pub comment_of : Option String → String
unfolding trim_space
comment_of none = ""
comment_of (some s) = trim_space s

unfoldable pub body_of : String → String
unfolding trim_space before_hash
body_of trimmed = if any_char is_hash trimmed then trim_space (before_hash trimmed) else trimmed

unfoldable pub data_of : List String → String → Option DataLine
data_of [] comment = none
data_of (ip ∷ []) comment = none
data_of (ip ∷ h ∷ hosts) comment = some (record {
  ip = ip;
  hosts = h ∷ hosts;
  comment = comment;
  managed = str_eq comment managed_marker;
})

unfoldable pub parse_trimmed : String → Option DataLine
unfolding data_of body_of comment_of
parse_trimmed trimmed =
    if str_eq trimmed "" || starts_hash trimmed
    then none
    else data_of (fields (body_of trimmed)) (comment_of (after_hash trimmed))

unfoldable pub parse_data_line : String → Option DataLine
unfolding parse_trimmed
parse_data_line raw = parse_trimmed (trim_space raw)

unfoldable pub parse_line : String → Line
unfolding parse_data_line
parse_line raw = record { raw = raw; data_line = parse_data_line raw }

unfoldable pub parse_all : String → List Line
unfolding parse_line split_lines
parse_all content = if str_eq content "" then [] else map parse_line (split_lines content)

unfoldable pub render_data : DataLine → String
unfolding join
render_data d =
    let s = concat (concat d.ip "\t") (join " " d.hosts) in
    if str_eq d.comment "" then s else concat s (concat "\t# " d.comment)

unfoldable pub render_line : Line → String
unfolding render_data
render_line l = elim l.data_line [ none ↦ l.raw | some d ↦ render_data d ]

unfoldable pub with_line_end : String → String
with_line_end s = if str_eq s "" || ends_line s then s else concat s "\n"

unfoldable pub render : List Line → String
unfolding with_line_end join
render lines = with_line_end (join "\n" (map render_line lines))

unfoldable pub new_managed_line : String → Line
new_managed_line hostname = record {
  raw = "";
  data_line =
      some (record {
        ip = managed_ip;
        hosts = hostname ∷ [];
        comment = managed_marker;
        managed = true;
      });
}

unfoldable pub content_lines : Option String → List Line
unfolding parse_all
content_lines none = []
content_lines (some text) = parse_all text

unfoldable pub read : HostsFile → Outcome HostsError (List Line)
unfolding content_lines
read f = if f.reads then done (content_lines f.content) else failed not_read

unfoldable pub write : HostsFile → List Line → HostsFile × Option HostsError
unfolding render
write f lines =
    if f.writes
    then (record f { content = some (render lines) }, none)
    else (record f { content = f.torn }, some not_written)

abbrev pub is_bad : Char → Bool
is_bad c = code c == 32 || code c == 9 || code c == 35

unfoldable pub normalize_hostname : String → Outcome HostsError String
normalize_hostname hostname =
    let h = trim_space hostname in
    if str_eq h ""
    then failed empty_hostname
    else if any_char is_bad h
    then failed invalid_characters
    else done h

-- what the loop of Add finds
pub data Adding : Type 0 where
  absent : Adding
  foreign : Adding
  already : Adding
  changed : List Line → Adding

unfoldable pub past : Line → Adding → Adding
past l absent = absent
past l foreign = foreign
past l already = already
past l (changed lines) = changed (l ∷ lines)

abbrev pub pointed : Line → DataLine → Line
pointed l d = record l { data_line = some (record d { ip = managed_ip }) }

unfoldable pub take_over : Line → DataLine → List Line → Adding
take_over l d lines =
    if not d.managed
    then foreign
    else if str_eq d.ip managed_ip
    then already
    else changed (pointed l d ∷ lines)

unfoldable pub settle : HostsFile → List Line → String → Adding → HostsFile × Option HostsError
unfolding write
settle f lines host absent = write f (lines ++ new_managed_line host ∷ [])
settle f lines host foreign = (f, some not_managed)
settle f lines host already = (f, none)
settle f lines host (changed lines') = write f lines'

abbrev not_after : String → String → Bool
not_after a b = elim (compare a b) [ Ordering.gt ↦ false | _ ↦ true ]

unfoldable insert_name : String → List String → List String
insert_name a [] = a ∷ []
insert_name a (b ∷ names) =
    let rest = insert_name a names in if not_after a b then a ∷ b ∷ names else b ∷ rest

-- sort.Strings
unfoldable pub sort_names : List String → List String
unfolding insert_name
sort_names [] = []
sort_names (a ∷ names) = insert_name a (sort_names names)

unfoldable pub managed_hosts : Option DataLine → List String
managed_hosts none = []
managed_hosts (some d) = if d.managed then d.hosts else []

unfoldable pub all_managed : List Line → List String
unfolding managed_hosts
all_managed [] = []
all_managed (l ∷ lines) = managed_hosts l.data_line ++ all_managed lines

unfoldable pub list : HostsFile → Outcome HostsError (List String)
unfolding read sort_names all_managed
list f = elim (read f) [ failed e ↦ failed e | done lines ↦ done (sort_names (all_managed lines)) ]

-- a reason why a name cannot be added: the address that it is mapped to
pub data Conflict : Type 0 where
  mapped_elsewhere : String → Conflict
  managed_elsewhere : String → Conflict

unfoldable pub conflicts_of : DataLine → List Conflict
conflicts_of d =
    if not d.managed
    then mapped_elsewhere d.ip ∷ []
    else if str_eq d.ip managed_ip
    then []
    else managed_elsewhere d.ip ∷ []

module _ (fold : Char → ℕ) where
  unfoldable pub among : String → List String → Bool
  among hostname [] = false
  among hostname (h ∷ hosts) = equal_fold fold h hostname || among hostname hosts

  unfoldable pub has_host : DataLine → String → Bool
  unfolding among
  has_host d hostname = among hostname d.hosts

  unfoldable pub search : String → List Line → Adding
  unfolding past take_over has_host
  search host [] = absent
  search host (l ∷ lines) =
      let rest = past l (search host lines) in
      elim l.data_line [
        | none ↦ rest
        | some d ↦ if has_host d host then take_over l d lines else rest
      ]

  unfoldable pub add : HostsFile → String → HostsFile × Option HostsError
  unfolding settle search read normalize_hostname
  add f hostname = elim (normalize_hostname hostname) [
    | failed e ↦ (f, some e)
    | done host ↦ elim (read f) [
      | failed e ↦ (f, some e)
      | done lines ↦ settle f lines host (search host lines)
    ]
  ]

  -- a line of Volt for that name alone
  unfoldable pub is_entry : String → DataLine → Bool
  is_entry host d = elim d.hosts [
    | [] ↦ false
    | (h ∷ hosts) ↦ elim hosts [ [] ↦ d.managed && equal_fold fold h host | (_ ∷ _) ↦ false ]
  ]

  unfoldable pub is_removed : String → Option DataLine → Bool
  unfolding is_entry
  is_removed host none = false
  is_removed host (some d) = is_entry host d

  unfoldable pub kept : String → List Line → List Line
  unfolding is_removed
  kept host [] = []
  kept host (l ∷ lines) =
      let rest = kept host lines in if is_removed host l.data_line then rest else l ∷ rest

  unfoldable pub removes : String → List Line → Bool
  unfolding is_removed
  removes host [] = false
  removes host (l ∷ lines) = is_removed host l.data_line || removes host lines

  unfoldable pub remove_from : HostsFile → String → List Line → HostsFile × Option HostsError
  unfolding removes kept write
  remove_from f host lines =
      if removes host lines then write f (kept host lines) else (f, some not_found)

  unfoldable pub remove : HostsFile → String → HostsFile × Option HostsError
  unfolding remove_from read normalize_hostname
  remove f hostname = elim (normalize_hostname hostname) [
    | failed e ↦ (f, some e)
    | done host ↦ elim (read f) [ failed e ↦ (f, some e) | done lines ↦ remove_from f host lines ]
  ]

  unfoldable pub conflicts_in : String → List Line → List Conflict
  unfolding conflicts_of has_host
  conflicts_in host [] = []
  conflicts_in host (l ∷ lines) =
      let rest = conflicts_in host lines in
      elim l.data_line [
        | none ↦ rest
        | some d ↦ if has_host d host then conflicts_of d ++ rest else rest
      ]

  unfoldable pub conflicts : HostsFile → String → Outcome HostsError (List Conflict)
  unfolding conflicts_in read normalize_hostname
  conflicts f hostname = elim (normalize_hostname hostname) [
    | failed e ↦ failed e
    | done host ↦ elim (read f) [
      | failed e ↦ failed e
      | done lines ↦ done (conflicts_in host lines)
    ]
  ]
