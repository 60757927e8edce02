-- ===== src/Effects/Signature.antt =====
-- The CSS signatures of crates/sniff-engine/src/effects.rs and how they are compared.
use Prim.Native.Char.{Char, code}
use sniff_css.Prelude.{
  String, Bool, true, false, ◌&&◌, ◌||◌, Option, none, some, List, [], ◌∷◌, if◌then◌else◌, str_eq,
  leb, ◌==◌, is_empty_str, trim,
}
use sniff_css.Json.{Value, null, number, string, array, Map, Serde, list_to_items}
use sniff_css.Json.Floats.{Floats}
use sniff_css.Effects.Geometry.{Plane, signature_tolerance}

abbrev pub effect_signature_props : List String
effect_signature_props =
    "display" ∷ "position" ∷ "z-index" ∷ "top" ∷ "right" ∷ "bottom" ∷ "left" ∷ "width" ∷ "height"
    ∷ "min-width" ∷ "min-height" ∷ "max-width" ∷ "max-height" ∷ "margin-top" ∷ "margin-right"
    ∷ "margin-bottom" ∷ "margin-left" ∷ "padding-top" ∷ "padding-right" ∷ "padding-bottom"
    ∷ "padding-left" ∷ "border-top-width" ∷ "border-right-width" ∷ "border-bottom-width"
    ∷ "border-left-width" ∷ "font-size" ∷ "font-weight" ∷ "line-height" ∷ "text-align" ∷ "color"
    ∷ "background-color" ∷ "background-image" ∷ "opacity" ∷ "visibility" ∷ "border-radius"
    ∷ "box-shadow" ∷ "transform" ∷ "overflow" ∷ []

abbrev pub root_signature_props : List String
root_signature_props =
    "display" ∷ "position" ∷ "z-index" ∷ "font-family" ∷ "font-size" ∷ "font-weight" ∷ "line-height"
    ∷ "text-align" ∷ "color" ∷ "background-color" ∷ "background-image" ∷ "opacity" ∷ "visibility"
    ∷ "border-radius" ∷ "box-shadow" ∷ "transform" ∷ "overflow" ∷ []

-- a digit, `.` or `-`
abbrev pub is_numeric_char : Char → Bool
is_numeric_char c = (leb b'0' (code c) && leb (code c) b'9') || code c == b'.' || code c == b'-'

-- `s.split_at(idx)` at the first other character
unfoldable pub split_number : String → String × String
split_number String.[] = ("", "")
split_number (String.◌∷◌ c s) =
    let (num, rest) = split_number s in
    if is_numeric_char c then (String.◌∷◌ c num, rest) else ("", String.◌∷◌ c s)

module _ (S : Serde) (R : Floats S) (P : Plane S) where
  open S use {F64, Number, sub, abs, fle, as_f64, parse_f64, number_eq, value_eq, get}

  abbrev parsed_number : String → String → Option (F64 × String)
  parsed_number num rest =
      if is_empty_str num
      then none
      else elim (parse_f64 num) [ none ↦ none | some x ↦ some (x, rest) ]

  unfoldable pub leading_number : String → Option (F64 × String)
  unfolding split_number trim
  leading_number s = let (num, rest) = split_number (trim s) in parsed_number num rest

  abbrev close_numbers : F64 → Option (F64 × String) → Option (F64 × String) → Bool
  close_numbers tol (some (x, ru)) (some (y, rv)) = str_eq ru rv && fle (abs (sub x y)) tol
  close_numbers tol _ _ = false

  unfoldable pub numeric_close : String → String → F64 → Bool
  unfolding leading_number
  numeric_close a b tol = close_numbers tol (leading_number a) (leading_number b)

  abbrev pub numbers_equal : Number → Number → Option F64 → Option F64 → Bool
  numbers_equal m n (some x) (some y) = fle (abs (sub x y)) (signature_tolerance S R P)
  numbers_equal m n _ _ = number_eq m n

  unfoldable pub css_value_equal : Option (Value Number) → Option (Value Number) → Bool
  unfolding numeric_close
  css_value_equal none none = true
  css_value_equal (some (string x)) (some (string y)) =
      str_eq x y || numeric_close x y (signature_tolerance S R P)
  css_value_equal (some (number x)) (some (number y)) = numbers_equal x y (as_f64 x) (as_f64 y)
  css_value_equal (some x) (some y) = value_eq x y
  css_value_equal _ _ = false

  -- the properties of a list at which two signatures differ
  unfoldable pub differing : Map Number → Map Number → List String → List String
  unfolding css_value_equal
  differing before after [] = []
  differing before after (p ∷ ps) =
      let rest = differing before after ps in
      if css_value_equal (get before p) (get after p) then rest else p ∷ rest

  unfoldable pub signature_diff_keys : Map Number → Map Number → Bool → List String
  unfolding differing
  signature_diff_keys before after root =
      differing before after (if root then root_signature_props else effect_signature_props)

  abbrev pub or_null : Option (Value Number) → Value Number
  or_null none = null
  or_null (some v) = v

  abbrev pub aligned : Map Number → List String → List (Value Number)
  aligned sig [] = []
  aligned sig (p ∷ ps) = or_null (get sig p) ∷ aligned sig ps

  abbrev pub signature_values : Map Number → Value Number
  signature_values sig = array (list_to_items (aligned sig effect_signature_props))
