-- ===== src/Store/Names.antt =====
-- The names of snapshots in the listing of crates/sniff-css-mcp/src/store.rs.
pub mod Parsed
use Prim.Native.Char.{Char, code}
use Prim.Native.String.{◌++◌ as str_append}
use sniff_css.Prelude.{
  ℕ, zero, suc, ◌+◌, String, Bool, true, false, ◌&&◌, Option, none, some, leb, ◌==◌, if◌then◌else◌,
  is_empty_str,
}
use sniff_css.Contrast.Strings.{strip_prefix, strip_suffix}

abbrev pub is_digit : Char → Bool
is_digit c = leb b'0' (code c) && leb (code c) b'9'

-- `s.get(..n)` with `s.get(n..)`; a cut within a character gives nothing, and so does a timestamp
-- that has one which is not a digit or `T`
unfoldable pub split_at : ℕ → String → Option (String × String)
split_at zero s = some ("", s)
split_at (suc n) String.[] = none
split_at (suc n) (String.◌∷◌ c s) = elim (split_at n s) [
  | none ↦ none
  | some (a, b) ↦ some (String.◌∷◌ c a, b)
]

-- the characters at the places from `i` on: `T` at place 8, digits elsewhere
unfoldable pub stamp_from : ℕ → String → Bool
stamp_from i String.[] = i == 15
stamp_from i (String.◌∷◌ c s) =
    (if i == 8 then code c == b'T' else is_digit c) && stamp_from (i + 1) s

abbrev pub is_timestamp : String → Bool
is_timestamp s = stamp_from 0 s

abbrev pub nonempty : String → Option String
nonempty s = if is_empty_str s then none else some s

abbrev pub and_then : {A B : Type 0} → Option A → (A → Option B) → Option B
and_then none f = none
and_then (some a) f = f a

-- the target, and the time with its `Z`
abbrev pub named : String → String → Option (String × String)
named created behind =
    if is_timestamp created
    then and_then (strip_prefix "Z" behind) (λ r.
      and_then (strip_prefix "-" r)
        (λ rest. and_then (nonempty rest) (λ t. some (t, str_append created "Z"))))
    else none

unfoldable pub parse_snapshot_name : String → Option (String × String)
unfolding split_at stamp_from strip_prefix strip_suffix
parse_snapshot_name name =
    and_then (strip_suffix ".jsonl" name)
      (λ stem. and_then (split_at 15 stem) (λ (created, behind). named created behind))
