-- ===== src/Contrast/Strings.antt =====
-- What crates/sniff-core/src/contrast.rs and crates/sniff-css-check/src/rules.rs use of `str`.
use Prim.Native.Char.{Char, code}
use sniff_css.Prelude.{
  ℕ, ◌+◌, ◌*◌, ◌-◌, String, Bool, ◌&&◌, Option, none, some, List, [], ◌∷◌, leb, ltb, ◌==◌,
  if◌then◌else◌, str_eq, is_empty_str, is_whitespace,
}
use mathlib.Core.Option

-- `s.strip_prefix(p)`
unfoldable pub strip_prefix : String → String → Option String
strip_prefix String.[] s = some s
strip_prefix (String.◌∷◌ c p) String.[] = none
strip_prefix (String.◌∷◌ c p) (String.◌∷◌ d s) =
    let rest = strip_prefix p s in if code c == code d then rest else none

-- `s.strip_suffix(p)`
unfoldable pub strip_suffix : String → String → Option String
strip_suffix p String.[] = if is_empty_str p then some "" else none
strip_suffix p (String.◌∷◌ c s) =
    let rest = strip_suffix p s in
    if str_eq (String.◌∷◌ c s) p then some "" else Option.map (String.◌∷◌ c) rest

abbrev pub onto_first : Char → List String → List String
onto_first c [] = String.◌∷◌ c String.[] ∷ []
onto_first c (p ∷ ps) = String.◌∷◌ c p ∷ ps

-- `s.split(f)`
unfoldable pub split : (Char → Bool) → String → List String
split f String.[] = "" ∷ []
split f (String.◌∷◌ c s) = let rest = split f s in if f c then "" ∷ rest else onto_first c rest

abbrev nonempty : List String → List String
nonempty [] = []
nonempty (s ∷ ss) = let rest = nonempty ss in if is_empty_str s then rest else s ∷ rest

-- `s.split_whitespace()`
unfoldable pub split_whitespace : String → List String
unfolding split
split_whitespace s = nonempty (split is_whitespace s)

-- `s.split_once('/')`
unfoldable pub split_slash : String → Option (String × String)
split_slash String.[] = none
split_slash (String.◌∷◌ c s) =
    let rest = split_slash s in
    if code c == b'/' then some ("", s) else Option.map (λ p. (String.◌∷◌ c p.0, p.1)) rest

-- a digit of base 16
unfoldable pub hex_digit : Char → Option ℕ
hex_digit c =
    let n = code c in
    if leb b'0' n && leb n b'9'
    then some (n - b'0')
    else if leb b'a' n && leb n b'f'
    then some (n - b'a' + 10)
    else if leb b'A' n && leb n b'F'
    then some (n - b'A' + 10)
    else none

-- the digits of `s` behind the value `n`
unfoldable pub hex_onto : ℕ → String → Option ℕ
unfolding hex_digit
hex_onto n String.[] = some n
hex_onto n (String.◌∷◌ c s) =
    let d = hex_digit c in
    let rest = hex_onto (n * 16 + elim d [ none ↦ 0 | some k ↦ k ]) s in
    elim d [ none ↦ none | some k ↦ rest ]

-- the value has to fit into 32 bits
abbrev fitting : Option ℕ → Option ℕ
fitting none = none
fitting (some n) = if ltb n 4294967296 then some n else none

abbrev hex_digits : String → Option ℕ
hex_digits String.[] = none
hex_digits (String.◌∷◌ c s) = fitting (hex_onto 0 (String.◌∷◌ c s))

-- `u32::from_str_radix(s, 16)`, which takes a sign `+`
unfoldable pub from_hex : String → Option ℕ
unfolding hex_onto
from_hex String.[] = none
from_hex (String.◌∷◌ c s) = if code c == b'+' then hex_digits s else hex_digits (String.◌∷◌ c s)
