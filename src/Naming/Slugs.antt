-- ===== src/Naming/Slugs.antt =====
-- `slug`, `domain_of`, `path_of` and the file names of crates/sniff-core/src/snapshot.rs.
pub mod Safe
pub mod Domains
use Prim.Native.Char.{Char, code}
use Prim.Native.String.{◌++◌ as str_append, char_at}
use sniff_css.Prelude.{
  ℕ, zero, suc, ◌-◌, ◌+◌, String, Bool, true, false, ◌&&◌, ◌||◌, not, Option, none, some, List, [],
  ◌∷◌, leb, ltb, ◌==◌, if◌then◌else◌, is_empty_str,
}
use sniff_css.Contrast.Strings.{strip_prefix}

abbrev pub is_alphanumeric : Char → Bool
is_alphanumeric c =
    let n = code c in
    (leb b'0' n && leb n b'9') || ((leb b'A' n && leb n b'Z') || (leb b'a' n && leb n b'z'))

-- the characters that a slug keeps
abbrev pub is_kept : Char → Bool
is_kept c = is_alphanumeric c || (code c == b'.' || code c == b'-')

abbrev pub is_edge : Char → Bool
is_edge c = code c == b'_' || (code c == b'.' || code c == b'-')

abbrev pub underscore : Char
underscore = char_at "_" 0

-- the loop over the characters, with `prev_underscore`
unfoldable pub collapse : Bool → String → String
collapse prev String.[] = String.[]
collapse prev (String.◌∷◌ c s) =
    let keep = is_kept c in
    let rest = collapse (not keep) s in
    if keep then String.◌∷◌ c rest else if prev then rest else String.◌∷◌ underscore rest

-- the two loops that trim the ends
unfoldable pub trim_front : String → String
trim_front String.[] = String.[]
trim_front (String.◌∷◌ c s) = let rest = trim_front s in if is_edge c then rest else String.◌∷◌ c s

unfoldable pub trim_back : String → String
trim_back String.[] = String.[]
trim_back (String.◌∷◌ c s) =
    let rest = trim_back s in
    if is_edge c && is_empty_str rest then String.[] else String.◌∷◌ c rest

-- `truncate`, on characters that are one byte long
unfoldable pub truncate : ℕ → String → String
truncate zero s = String.[]
truncate (suc n) String.[] = String.[]
truncate (suc n) (String.◌∷◌ c s) = String.◌∷◌ c (truncate n s)

unfoldable pub slug : String → ℕ → String
unfolding collapse trim_front trim_back truncate
slug raw max = truncate max (trim_back (trim_front (collapse false raw)))

-- `url.split_once("://").map_or(url, |(_, rest)| rest)`: the text behind the first `://`
unfoldable pub after_scheme : String → Option String
unfolding strip_prefix
after_scheme String.[] = none
after_scheme (String.◌∷◌ c s) =
    let rest = after_scheme s in
    elim (strip_prefix "://" (String.◌∷◌ c s)) [ some t ↦ some t | none ↦ rest ]

abbrev rest_of : String → String
rest_of url = elim (after_scheme url) [ none ↦ url | some rest ↦ rest ]

-- `s.split(f).next()`: the text up to the first character that `f` takes
unfoldable pub until : (Char → Bool) → String → String
until f String.[] = String.[]
until f (String.◌∷◌ c s) = let rest = until f s in if f c then String.[] else String.◌∷◌ c rest

-- `s.rsplit('@').next()`: the text behind the last `@`
unfoldable pub behind_at : String → Option String
behind_at String.[] = none
behind_at (String.◌∷◌ c s) =
    let rest = behind_at s in
    elim rest [ some t ↦ some t | none ↦ if code c == b'@' then some s else none ]

abbrev host_of : String → String
host_of authority = elim (behind_at authority) [ none ↦ authority | some h ↦ h ]

-- `to_ascii_lowercase`
abbrev pub lower : Char → Char
lower c =
    if leb b'A' (code c) && leb (code c) b'Z'
    then char_at "abcdefghijklmnopqrstuvwxyz" (code c - b'A')
    else c

unfoldable pub to_lowercase : String → String
to_lowercase String.[] = String.[]
to_lowercase (String.◌∷◌ c s) = String.◌∷◌ (lower c) (to_lowercase s)

abbrev is_authority_end : Char → Bool
is_authority_end c = code c == b'/' || (code c == b'?' || code c == b'#')

abbrev is_path_end : Char → Bool
is_path_end c = code c == b'?' || code c == b'#'

abbrev or_default : String → String → String
or_default s other = if is_empty_str s then other else s

unfoldable pub domain_of : String → String
unfolding after_scheme until behind_at slug to_lowercase
domain_of url =
    let s = slug (host_of (until is_authority_end (rest_of url))) 80 in
    if is_empty_str s then "local" else to_lowercase s

-- the text from the first `/` on
unfoldable pub from_slash : String → Option String
from_slash String.[] = none
from_slash (String.◌∷◌ c s) =
    let rest = from_slash s in if code c == b'/' then some (String.◌∷◌ c s) else rest

unfoldable pub path_of : String → String
unfolding after_scheme until from_slash slug
path_of url =
    or_default
      (slug (elim (from_slash (until is_path_end (rest_of url))) [ none ↦ "/" | some path ↦ path ])
        80)
      "index"

unfoldable pub snapshot_file_name_at : String → String → String → String → String
unfolding path_of slug
snapshot_file_name_at url selector ext stamp = str_append stamp (
    str_append "-" (
      str_append (path_of url)
        (str_append "-" (str_append (slug selector 40) (str_append "." ext)))))
