-- ===== src/Hosts/Lines.antt =====
-- A hosts file that is written and read again: its lines of data are the same, in the same order.
use Prim.Native.Char.{Char}
use Prim.Native.String
use mathlib.Core.List.{List, [], ◌∷◌}
use alresia_voltpanel.Prelude.{
  String, Bool, true, false, some, ◌≡◌, refl, ap, sym, ◌∙◌, str_eq, eq_iff, concat, on_if, subst,
}
use alresia_voltpanel.Deployment.Text.{is_space, trim_right, trim_space}
use alresia_voltpanel.Hosts.Text.{
  is_hash, is_line_end, any_char, after_hash, starts_hash, fields, join,
}
use alresia_voltpanel.Hosts.Words.{
  str_eq-cons, any_char-append, any_char-weaker, line_end_space, trim_right-word, trim_right-append,
  trim_right-cons, starts_hash-word, str_eq-word, after_hash-free,
}
use alresia_voltpanel.Hosts.Fields.{IsWord, blank, fields_word, AreWords, fields-join}
use alresia_voltpanel.Hosts.Data.{
  plain, commented, plain_form, commented_form, plain_trim, plain_no_hash, commented_trim,
  commented_hash, commented_body, commented_after, comment_trim,
}
use alresia_voltpanel.Hosts.Provider.{
  DataLine, managed_marker, comment_of, body_of, data_of, parse_trimmed, parse_data_line,
  render_data,
}

-- a line of data that can be written: an address, one name or more, and a comment without spaces around
pub record IsWritable (d : DataLine) : Type 0 where
  pub ip_word : IsWord d.ip
  pub first_host : String
  pub other_hosts : List String
  pub hosts_are : d.hosts ≡ first_host ∷ other_hosts
  pub host_words : AreWords d.hosts
  pub comment_trimmed : trim_space d.comment ≡ d.comment
  pub comment_line : any_char is_line_end d.comment ≡ false
  pub managed_is : d.managed ≡ str_eq d.comment managed_marker

-- names with a blank between them
module _ (p : Char → Bool) (no_blank : p " " ≡ false) where
  any_char-join :
      (w : String) (ws : List String)
      → ((v : String) → IsWord v → any_char p v ≡ false)
      → AreWords (w ∷ ws)
      → any_char p (join " " (w ∷ ws)) ≡ false
  unfolding join any_char
  any_char-join w [] free (h, _) = free w h
  any_char-join w (v ∷ ws) free (h, k) =
      rw
        (
          any_char-append p w (concat " " (join " " (v ∷ ws))),
          free w h,
          blank (join " " (v ∷ ws)),
          no_blank,
          any_char-join v ws free k,
        )
        refl

join_some : (w : String) (ws : List String) → IsWord w → str_eq (join " " (w ∷ ws)) "" ≡ false
unfolding join
join_some w [] h = h.some_char
join_some w (v ∷ ws) h = str_eq-word w (concat " " (join " " (v ∷ ws))) h.some_char

join_trimmed :
    (w : String) (ws : List String)
    → AreWords (w ∷ ws)
    → trim_right (join " " (w ∷ ws)) ≡ join " " (w ∷ ws)
unfolding join
join_trimmed w [] (h, _) = trim_right-word w h.no_space
join_trimmed w (v ∷ ws) (h, (k, ks)) =
    let rest : String = join " " (v ∷ ws) in
    ap (λ t. trim_right (concat w t)) (blank rest)
    ∙ trim_right-append w (String.◌∷◌ " " rest)
        (trim_right-cons " " rest (join_trimmed v ws (k, ks)) (join_some v ws k))
        (str_eq-cons " " rest)
    ∙ sym (ap (concat w) (blank rest))

-- the names of a line, written with blanks
pub record Written (names : String) : Type 0 where
  pub some_name : str_eq names "" ≡ false
  pub trimmed : trim_right names ≡ names
  pub no_hash : any_char is_hash names ≡ false
  pub no_line_end : any_char is_line_end names ≡ false

join-Written : (w : String) (ws : List String) → AreWords (w ∷ ws) → Written (join " " (w ∷ ws))
join-Written w ws (h, k) = record {
  some_name = join_some w ws h;
  trimmed = join_trimmed w ws (h, k);
  no_hash = any_char-join is_hash refl w ws (λ v f. f.no_hash) (h, k);
  no_line_end =
      any_char-join is_line_end refl w ws
        (λ v f. any_char-weaker is_line_end is_space line_end_space v f.no_space) (h, k);
}

pub hosts-Written : (d : DataLine) → IsWritable d → Written (join " " d.hosts)
hosts-Written d w =
    subst (λ hs. Written (join " " hs)) (sym w.hosts_are)
      (join-Written w.first_host w.other_hosts (subst AreWords w.hosts_are w.host_words))

-- what data_of makes of an address and names, with the comment of a writable line
data_of_writable : (d : DataLine) → IsWritable d → data_of (d.ip ∷ d.hosts) d.comment ≡ some d
unfolding data_of
data_of_writable d w =
    ap (λ hs. data_of (d.ip ∷ hs) d.comment) w.hosts_are
    ∙ ap
        (λ hs. some (record {
          ip = d.ip;
          hosts = hs;
          comment = d.comment;
          managed = str_eq d.comment managed_marker;
        }))
        (sym w.hosts_are)
    ∙ ap (λ m. some (record { ip = d.ip; hosts = d.hosts; comment = d.comment; managed = m }))
        (sym w.managed_is)

parse_at :
    (t ip s : String)
    → t ≡ concat ip s
    → IsWord ip
    → trim_space t ≡ t
    → parse_data_line t ≡ data_of (fields (body_of t)) (comment_of (after_hash t))
unfolding parse_data_line parse_trimmed
parse_at t ip s e word h =
    let n : str_eq t "" ≡ false =
      subst (λ u. str_eq u "" ≡ false) (sym e) (str_eq-word ip s word.some_char) in
    let f : starts_hash t ≡ false =
      subst (λ u. starts_hash u ≡ false) (sym e)
        (starts_hash-word ip s word.some_char word.no_hash) in
    ap parse_trimmed h ∙ rw (parse_trimmed, n, f) refl

tab_space : is_space "\t" ≡ true
unfolding is_space
tab_space = refl

fields-plain :
    (d : DataLine) → IsWritable d → fields (plain d.ip (join " " d.hosts)) ≡ d.ip ∷ d.hosts
fields-plain d w =
    fields_word d.ip "\t" (join " " d.hosts) w.ip_word.some_char w.ip_word.no_space tab_space
    ∙ ap (λ ws. d.ip ∷ ws) (fields-join d.hosts w.host_words)

parse_plain :
    (d : DataLine)
    → IsWritable d
    → d.comment ≡ ""
    → parse_data_line (plain d.ip (join " " d.hosts)) ≡ some d
unfolding body_of comment_of
parse_plain d w e =
    let n = hosts-Written d w in
    let t : String = plain d.ip (join " " d.hosts) in
    let free : any_char is_hash t ≡ false =
      plain_no_hash d.ip (join " " d.hosts) w.ip_word n.some_name n.trimmed n.no_hash in
    let b : body_of t ≡ t = rw (body_of, free) refl in
    let c : comment_of (after_hash t) ≡ d.comment =
      ap comment_of (after_hash-free t free) ∙ sym e in
    parse_at t d.ip (String.◌∷◌ "\t" (join " " d.hosts)) refl w.ip_word
      (plain_trim d.ip (join " " d.hosts) w.ip_word n.some_name n.trimmed n.no_hash)
    ∙ ap (λ x. data_of (fields x) (comment_of (after_hash t))) b
    ∙ ap (λ x. data_of x (comment_of (after_hash t))) (fields-plain d w)
    ∙ ap (data_of (d.ip ∷ d.hosts)) c
    ∙ data_of_writable d w

parse_commented :
    (d : DataLine)
    → IsWritable d
    → str_eq d.comment "" ≡ false
    → parse_data_line (commented d.ip (join " " d.hosts) d.comment) ≡ some d
unfolding body_of comment_of
parse_commented d w e =
    let n = hosts-Written d w in
    let j : String = join " " d.hosts in
    let t : String = commented d.ip j d.comment in
    let hash : any_char is_hash t ≡ true =
      commented_hash d.ip j w.ip_word n.some_name n.trimmed n.no_hash d.comment e
        w.comment_trimmed in
    let b : body_of t ≡ plain d.ip j =
      rw (body_of, hash)
        (commented_body d.ip j w.ip_word n.some_name n.trimmed n.no_hash d.comment e
          w.comment_trimmed) in
    let c : comment_of (after_hash t) ≡ d.comment =
      ap comment_of (
        commented_after d.ip j w.ip_word n.some_name n.trimmed n.no_hash d.comment e
          w.comment_trimmed)
      ∙ comment_trim d.ip j w.ip_word n.some_name n.trimmed n.no_hash d.comment e
          w.comment_trimmed in
    parse_at t d.ip
      (String.◌∷◌ "\t"
        (String.◌++◌ j (String.◌∷◌ "\t" (String.◌∷◌ "#" (String.◌∷◌ " " d.comment)))))
      refl w.ip_word
      (commented_trim d.ip j w.ip_word n.some_name n.trimmed n.no_hash d.comment e
        w.comment_trimmed)
    ∙ ap (λ x. data_of (fields x) (comment_of (after_hash t))) b
    ∙ ap (λ x. data_of x (comment_of (after_hash t))) (fields-plain d w)
    ∙ ap (data_of (d.ip ∷ d.hosts)) c
    ∙ data_of_writable d w

pub parse-render_data : (d : DataLine) → IsWritable d → parse_data_line (render_data d) ≡ some d
unfolding render_data
parse-render_data d w =
    on_if (λ t. parse_data_line t ≡ some d) (str_eq d.comment "") _ _
      (λ e.
        ap parse_data_line (plain_form d.ip (join " " d.hosts))
        ∙ parse_plain d w ((eq_iff d.comment "").0 e))
      (λ e.
        ap parse_data_line (commented_form d.ip (join " " d.hosts) d.comment)
        ∙ parse_commented d w e)
