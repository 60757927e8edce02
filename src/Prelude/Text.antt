-- ===== src/Prelude/Text.antt =====
-- What the code uses of `str` and `char`: `trim`, and printing a number in decimal.
use Prim.Native.Nat.{ℕ, zero, suc, ◌/◌, ◌%◌}
use Prim.Native.Char.{Char, code}
use Prim.Native.String.{String}
use mathlib.Core.Bool.{Bool, true, false, ◌&&◌, ◌||◌}
use sniff_css.Prelude.Tests.{leb, ◌==◌, if◌then◌else◌}

abbrev pub is_empty_str : String → Bool
is_empty_str String.[] = true
is_empty_str (String.◌∷◌ c s) = false

-- `char::is_whitespace`: the code points with the property White_Space
abbrev pub is_whitespace_code : ℕ → Bool
is_whitespace_code n =
    (leb 9 n && leb n 13)
    || n == 32
    || n == 0x85
    || n == 0xa0
    || n == 0x1680
    || (leb 0x2000 n && leb n 0x200a)
    || n == 0x2028
    || n == 0x2029
    || n == 0x202f
    || n == 0x205f
    || n == 0x3000

abbrev pub is_whitespace : Char → Bool
is_whitespace c = is_whitespace_code (code c)

unfoldable pub trim_start : String → String
trim_start String.[] = String.[]
trim_start (String.◌∷◌ c s) =
    let rest = trim_start s in if is_whitespace c then rest else String.◌∷◌ c s

unfoldable pub trim_end : String → String
trim_end String.[] = String.[]
trim_end (String.◌∷◌ c s) =
    let rest = trim_end s in
    if is_whitespace c && is_empty_str rest then String.[] else String.◌∷◌ c rest

unfoldable pub trim : String → String
unfolding trim_start trim_end
trim s = trim_end (trim_start s)

digit : ℕ → String
digit n =
    if n == 0
    then "0"
    else if n == 1
    then "1"
    else if n == 2
    then "2"
    else if n == 3
    then "3"
    else if n == 4
    then "4"
    else if n == 5
    then "5"
    else if n == 6
    then "6"
    else if n == 7
    then "7"
    else if n == 8
    then "8"
    else "9"

-- The decimal digits of `n`, in front of `s`; twenty rounds print any number of 64 bits.
digits_onto : ℕ → ℕ → String → String
unfolding digit
digits_onto zero n s = s
digits_onto (suc fuel) n s =
    let t = Prim.Native.String.◌++◌ (digit (n % 10)) s in
    let rest = digits_onto fuel (n / 10) t in if n / 10 == 0 then t else rest

unfoldable pub decimal : ℕ → String
unfolding digits_onto
decimal n = digits_onto 20 n ""
