-- ===== src/Check/Nodes.antt =====
-- What the rules read of a node, in crates/sniff-css-check/src/rules.rs and in
-- crates/sniff-css-diff/src/model.rs.
use sniff_css.Prelude.{
  ℤ, String, Bool, true, false, ◌||◌, ◌&&◌, Option, none, some, List, [], ◌∷◌, str_eq,
  if◌then◌else◌,
}
use sniff_css.Json.{Value, bool, number, string, Serde}
use sniff_css.Model.{DiffNode, info}
use sniff_css.Model.Load.{at, str_of}
use sniff_css.Json.Floats.{Floats}

-- `RuleStatus` and `CheckLine`
pub data RuleStatus : Type 0 where
  pass warn fail : RuleStatus

pub record CheckLine : Type 0 where
  pub check : String
  pub selector : String
  pub tag : Option String
  pub status : RuleStatus
  pub evidence : String

abbrev pub interactive_tags : List String
interactive_tags = "BUTTON" ∷ "INPUT" ∷ "SELECT" ∷ "TEXTAREA" ∷ "SUMMARY" ∷ []

abbrev pub text_tags : List String
text_tags =
    "P" ∷ "SPAN" ∷ "LABEL" ∷ "LI" ∷ "TD" ∷ "TH" ∷ "DT" ∷ "DD" ∷ "H1" ∷ "H2" ∷ "H3" ∷ "H4" ∷ "H5"
    ∷ "H6" ∷ "A" ∷ "BUTTON" ∷ "Q" ∷ "BLOCKQUOTE" ∷ "PRE" ∷ "CODE" ∷ "SMALL" ∷ "STRONG" ∷ "EM" ∷ "B"
    ∷ "I" ∷ "U" ∷ "SUMMARY" ∷ "LEGEND" ∷ "CAPTION" ∷ "FIGCAPTION" ∷ "OPTION" ∷ []

abbrev pub or_empty : Option String → String
or_empty none = ""
or_empty (some s) = s

-- `opt == Some(s)`, or `opt.is_some_and(|v| v == s)`
abbrev pub is_str : Option String → String → Bool
is_str none s = false
is_str (some v) s = str_eq v s

-- `opt.is_some_and(|v| v != s)`
abbrev pub is_other : Option String → String → Bool
is_other none s = false
is_other (some v) s = if str_eq v s then false else true

abbrev pub is_bool : Option Bool → Bool → Bool
is_bool (some true) b = b
is_bool (some false) b = if b then false else true
is_bool none b = false

module _ (S : Serde) where
  open S use {Number, F64, as_f64, get, flt, zero}

  abbrev pub bool_of : Option (Value Number) → Option Bool
  bool_of (some (bool b)) = some b
  bool_of _ = none

  -- `opt.as_ref().and_then(|v| v.get(k))`
  abbrev pub field : Option (Value Number) → String → Option (Value Number)
  field none k = none
  field (some v) k = at S v k

  abbrev pub style_val : DiffNode Number → String → String → Option String
  style_val x category prop = elim (info x).styles [
    | none ↦ none
    | some styles ↦ str_of S (field (get styles category) prop)
  ]

  abbrev pub is_opaque_zero : DiffNode Number → Bool
  is_opaque_zero x =
      is_str (style_val x "visual" "opacity") "0" || is_str (style_val x "visual" "opacity") "0.0"

  abbrev pub display_visible : DiffNode Number → Option Bool
  display_visible x = bool_of (field (info x).noticeable "display_visible")

  pub record Rect : Type 0 where
    pub x : F64
    pub y : F64
    pub w : F64
    pub h : F64

  abbrev pub float_at : Option (Value Number) → String → Option F64
  float_at r k = elim (field r k) [ some (number n) ↦ as_f64 n | _ ↦ none ]

  abbrev sized : Option F64 → Option F64 → Option F64 → Option F64 → Option Rect
  sized (some x) (some y) (some w) (some h) =
      if flt zero w && flt zero h then some (record { x = x; y = y; w = w; h = h }) else none
  sized _ _ _ _ = none

  unfoldable pub rect_coords : DiffNode Number → Option Rect
  rect_coords n =
      let r = (info n).rect in
      sized (float_at r "x") (float_at r "y") (float_at r "width") (float_at r "height")

  module _ (R : Floats S) where
    open R use {as_i64, parse_i64}

    abbrev pub parse_opt : Option String → Option ℤ
    parse_opt none = none
    parse_opt (some s) = parse_i64 s

    -- a metric as an integer, or as a string that reads as one
    abbrev metric_z : Option (Value Number) → Option ℤ
    metric_z (some (number n)) = as_i64 n
    metric_z (some (string s)) = parse_i64 s
    metric_z _ = none

    unfoldable pub node_z_index : DiffNode Number → Option ℤ
    node_z_index n = elim (metric_z (field (info n).metrics "z_index")) [
      | some i ↦ some i
      | none ↦ parse_opt (style_val n "layout" "z-index")
    ]
