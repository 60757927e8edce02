-- ===== src/Contrast/Colors.antt =====
-- `parse_color` of crates/sniff-core/src/contrast.rs.
pub mod Hex
use Prim.Native.Char.{Char, code}
use sniff_css.Prelude.{
  ℕ, suc, ◌/◌, ◌%◌, ◌*◌, min, String, Bool, true, false, ◌||◌, Option, none, some, List, [], ◌∷◌,
  ◌++◌, ◌==◌, if◌then◌else◌, trim, map,
}
use sniff_css.Json.{Serde}
use sniff_css.Json.Floats.{Floats}
use sniff_css.Contrast.Strings.{
  strip_prefix, strip_suffix, split, split_whitespace, split_slash, from_hex,
}

-- the number of characters
abbrev pub char_count : String → ℕ
char_count String.[] = 0
char_count (String.◌∷◌ c s) = suc (char_count s)

-- the four channels as bytes, `saturating_mul(17)` for a short form
pub record Bytes : Type 0 where
  pub r : ℕ
  pub g : ℕ
  pub b : ℕ
  pub a : ℕ

abbrev pub nibble : ℕ → ℕ
nibble n = min (n % 16 * 17) 255

-- the channels of a value with a number of digits
abbrev pub channels : ℕ → ℕ → Option Bytes
channels value digits =
    if digits == 3
    then some
        (record { r = nibble (value / 256); g = nibble (value / 16); b = nibble value; a = 255 })
    else if digits == 4
    then some (record {
      r = nibble (value / 4096);
      g = nibble (value / 256);
      b = nibble (value / 16);
      a = nibble value;
    })
    else if digits == 6
    then some (record { r = value / 65536 % 256; g = value / 256 % 256; b = value % 256; a = 255 })
    else if digits == 8
    then some (record {
      r = value / 16777216 % 256;
      g = value / 65536 % 256;
      b = value / 256 % 256;
      a = value % 256;
    })
    else none

-- the bytes of `parse_hex`; the length in bytes is that in characters where the digits parse
unfoldable pub hex_bytes : String → Option Bytes
unfolding from_hex trim
hex_bytes hex = elim (from_hex (trim hex)) [
  | none ↦ none
  | some value ↦ channels value (char_count (trim hex))
]

abbrev is_slash : Char → Bool
is_slash c = code c == b'/'

abbrev is_separator : Char → Bool
is_separator c = code c == b',' || code c == b'/'

module _ (S : Serde) (R : Floats S) where
  open S use {F64, parse_f64}
  open R use {div, hundredths, from_uint}

  pub record Rgb : Type 0 where
    pub red : F64
    pub green : F64
    pub blue : F64

  pub record Color : Type 0 where
    pub rgb : Rgb
    pub alpha : F64

  abbrev fraction : ℕ → F64
  fraction n = div (from_uint n) (hundredths 25500)

  abbrev color_of_bytes : Bytes → Color
  color_of_bytes c = record {
    rgb = record { red = fraction c.r; green = fraction c.g; blue = fraction c.b };
    alpha = fraction c.a;
  }

  unfoldable pub parse_hex : String → Option Color
  unfolding hex_bytes
  parse_hex hex = elim (hex_bytes hex) [ none ↦ none | some c ↦ some (color_of_bytes c) ]

  abbrev divided : Option F64 → F64 → Option F64
  divided none n = none
  divided (some x) n = some (div x n)

  -- the closure `comp`, on a part that is there
  unfoldable pub component : String → Option F64
  unfolding strip_suffix trim
  component part = elim (strip_suffix "%" (trim part)) [
    | some pct ↦ divided (parse_f64 pct) (hundredths 10000)
    | none ↦ divided (parse_f64 (trim part)) (hundredths 25500)
  ]

  unfoldable pub alpha_of : List String → Option F64
  unfolding strip_suffix trim
  alpha_of [] = some (hundredths 100)
  alpha_of (part ∷ ps) = elim (strip_suffix "%" (trim part)) [
    | some pct ↦ divided (parse_f64 pct) (hundredths 10000)
    | none ↦ parse_f64 (trim part)
  ]

  abbrev color_of : Option F64 → Option F64 → Option F64 → Option F64 → Option Color
  color_of (some r) (some g) (some b) (some a) =
      some (record { rgb = record { red = r; green = g; blue = b }; alpha = a })
  color_of _ _ _ _ = none

  abbrev color_of_parts : List String → Option Color
  color_of_parts (r ∷ g ∷ b ∷ rest) =
      color_of (component r) (component g) (component b) (alpha_of rest)
  color_of_parts _ = none

  unfoldable pub parts_of : String → List String
  unfolding split_slash split_whitespace split trim
  parts_of rest = elim (split_slash rest) [
    | some (chans, alpha) ↦ split_whitespace chans ++ alpha ∷ []
    | none ↦ map trim (split is_separator rest)
  ]

  unfoldable pub parse_rgb_args : String → Option Color
  unfolding parts_of component alpha_of
  parse_rgb_args rest = color_of_parts (parts_of rest)

  -- `s.strip_prefix(p).and_then(|r| r.strip_suffix(')'))`
  abbrev arguments : String → String → Option String
  arguments p s = elim (strip_prefix p s) [ none ↦ none | some r ↦ strip_suffix ")" r ]

  unfoldable pub parse_color : String → Option Color
  unfolding parse_hex parse_rgb_args strip_prefix strip_suffix trim
  parse_color input = elim (strip_prefix "#" (trim input)) [
    | some hex ↦ parse_hex hex
    | none ↦ elim (arguments "rgba(" (trim input)) [
      | some rest ↦ parse_rgb_args rest
      | none ↦ elim (arguments "rgb(" (trim input)) [
        | some rest ↦ parse_rgb_args rest
        | none ↦ none
      ]
    ]
  ]
