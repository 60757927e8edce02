-- ===== src/Contrast/Derive.antt =====
-- `derive_contrast_values` of crates/sniff-core/src/contrast.rs.
pub mod Verdicts
use sniff_css.Prelude.{
  ℕ, String, Bool, true, false, ◌&&◌, ◌||◌, not, Option, none, some, List, [], ◌∷◌, if◌then◌else◌,
  str_eq, is_empty_str, trim,
}
use sniff_css.Json.{Serde}
use sniff_css.Json.Floats.{Floats}
use sniff_css.Contrast.Strings.{strip_suffix, split_whitespace}
use sniff_css.Contrast.Colors.{Rgb, Color, parse_color}

pub data TriState : Type 0 where
  passed failed unmeasured : TriState

module _ (S : Serde) (R : Floats S) where
  open S use {F64, parse_f64, fle, flt, zero}
  open R use {add, mul, div, mul_add, powf, hundredths, millionths, round}

  pub record ContrastInfo : Type 0 where
    pub ratio : F64
    pub foreground : String
    pub background : String
    pub large : Bool
    pub aa : TriState
    pub aaa : TriState
    pub unknown_reason : Option String

  abbrev linear_channel : F64 → F64
  linear_channel c =
      if fle c (millionths 39280)
      then div c (hundredths 1292)
      else powf (div (add c (millionths 55000)) (millionths 1055000)) (hundredths 240)

  unfoldable pub relative_luminance : Rgb S R → F64
  relative_luminance c = mul_add (millionths 72200) (linear_channel c.blue) (
      mul_add (millionths 715200) (linear_channel c.green)
        (mul (millionths 212600) (linear_channel c.red)))

  abbrev ratio_of : F64 → F64 → F64
  ratio_of hi lo = div (add hi (hundredths 5)) (add lo (hundredths 5))

  unfoldable pub contrast_ratio : Rgb S R → Rgb S R → F64
  unfolding relative_luminance
  contrast_ratio fg bg =
      let l1 = relative_luminance fg in
      let l2 = relative_luminance bg in if flt l2 l1 then ratio_of l1 l2 else ratio_of l2 l1

  abbrev pub classify : F64 → F64 → TriState
  classify ratio threshold = if fle threshold ratio then passed else failed

  -- `parse_px` of contrast.rs, with the unit `pt`
  unfoldable pub parse_length : String → Option F64
  unfolding strip_suffix trim
  parse_length value = elim (strip_suffix "px" (trim value)) [
    | some px ↦ parse_f64 px
    | none ↦ elim (strip_suffix "pt" (trim value)) [
      | some pt ↦ elim (parse_f64 pt) [
        | none ↦ none
        | some x ↦ some (div (mul x (hundredths 9600)) (hundredths 7200))
      ]
      | none ↦ parse_f64 (trim value)
    ]
  ]

  abbrev size_of : Option String → F64
  size_of none = zero
  size_of (some v) = elim (parse_length v) [ none ↦ zero | some x ↦ x ]

  abbrev is_heavy : List String → Bool
  is_heavy [] = false
  is_heavy (n ∷ ns) = elim (parse_f64 n) [ none ↦ false | some w ↦ fle (hundredths 70000) w ]

  abbrev is_bold : Option String → Bool
  is_bold none = false
  is_bold (some w) = is_heavy (split_whitespace w)

  unfoldable pub is_large_text : Option String → Option String → Bool
  unfolding parse_length split_whitespace
  is_large_text font_size font_weight =
      if fle (hundredths 2400) (size_of font_size)
      then true
      else fle (hundredths 1866) (size_of font_size) && is_bold font_weight

  -- the closure `unknown`
  abbrev pub unknown : String → String → String → ContrastInfo
  unknown fg_raw bg_raw reason = record {
    ratio = zero;
    foreground = fg_raw;
    background = bg_raw;
    large = false;
    aa = unmeasured;
    aaa = unmeasured;
    unknown_reason = some reason;
  }

  abbrev pub aa_threshold : Bool → F64
  aa_threshold large = if large then hundredths 300 else hundredths 450

  abbrev pub aaa_threshold : Bool → F64
  aaa_threshold large = if large then hundredths 450 else hundredths 700

  abbrev pub measured : String → String → Bool → F64 → ContrastInfo
  measured fg_raw bg_raw large ratio = record {
    ratio = div (round (mul ratio (hundredths 10000))) (hundredths 10000);
    foreground = fg_raw;
    background = bg_raw;
    large = large;
    aa = classify ratio (aa_threshold large);
    aaa = classify ratio (aaa_threshold large);
    unknown_reason = none;
  }

  -- `bg_image.unwrap_or("none").trim()` is neither empty nor `none`
  abbrev pub is_image : Option String → Bool
  is_image none = false
  is_image (some v) = not (is_empty_str (trim v)) && not (str_eq (trim v) "none")

  abbrev pub derive_colors :
      String → String → Option (Color S R) → Option (Color S R) → Bool → Bool → Option ContrastInfo
  derive_colors fg_raw bg_raw (some fg) (some bg) image large = some (
      if image
      then unknown fg_raw bg_raw "background image"
      else if flt fg.alpha (hundredths 100)
      then unknown fg_raw bg_raw "transparent foreground"
      else if flt bg.alpha (hundredths 100)
      then unknown fg_raw bg_raw "transparent background"
      else measured fg_raw bg_raw large (contrast_ratio fg.rgb bg.rgb))
  derive_colors fg_raw bg_raw _ _ image large = none

  unfoldable pub derive_contrast_values :
      Option String
      → Option String
      → Option String
      → Option String
      → Option String
      → Option ContrastInfo
  unfolding parse_color contrast_ratio is_large_text trim
  derive_contrast_values (some fg) (some bg) bg_image font_size font_weight =
      derive_colors fg bg (parse_color S R fg) (parse_color S R bg) (is_image bg_image)
        (is_large_text font_size font_weight)
  derive_contrast_values _ _ bg_image font_size font_weight = none
