-- ===== src/Check/Facts.antt =====
-- What `check_node` of crates/sniff-css-check/src/rules.rs computes first of a node, and
-- `AncestorCtx`.
use Prim.Native.String.{◌++◌ as str_append}
use sniff_css.Prelude.{
  String, Bool, true, false, ◌||◌, not, Option, none, some, List, [], ◌∷◌, if◌then◌else◌, contains,
  is_some, is_empty_str,
}
use sniff_css.Json.{Serde}
use sniff_css.Model.{DiffNode, info}
use sniff_css.Model.Load.{str_of}
use sniff_css.Contrast.Strings.{strip_prefix}
use sniff_css.Check.Nodes.{
  RuleStatus, CheckLine, text_tags, interactive_tags, or_empty, is_other, bool_of, field, style_val,
  display_visible, float_at,
}

abbrev pub or_false : Option Bool → Bool
or_false none = false
or_false (some b) = b

abbrev pub or_true : Option Bool → Bool
or_true none = true
or_true (some b) = b

-- the pieces of a `format!`
abbrev pub concat : List String → String
concat [] = ""
concat (s ∷ ss) = str_append s (concat ss)

abbrev pub any : List Bool → Bool
any [] = false
any (b ∷ bs) = b || any bs

-- `s.contains(p)`
unfoldable pub contains_str : String → String → Bool
unfolding strip_prefix
contains_str String.[] p = is_empty_str p
contains_str (String.◌∷◌ c s) p = is_some (strip_prefix p (String.◌∷◌ c s)) || contains_str s p

abbrev has_part : Option String → String → Bool
has_part none p = false
has_part (some v) p = contains_str v p

-- `opt.is_some_and(|v| matches!(v, ...))`, and its negation on a value that is there
abbrev pub is_one_of : Option String → List String → Bool
is_one_of none ks = false
is_one_of (some v) ks = contains ks v

abbrev pub is_none_of : Option String → List String → Bool
is_none_of none ks = false
is_none_of (some v) ks = not (contains ks v)

-- lines that are pushed under a condition
abbrev pub when : Bool → CheckLine → List CheckLine
when b l = if b then l ∷ [] else []

pub record AncestorCtx : Type 0 where
  pub has_overflow_hidden_ancestor : Bool
  pub has_transform_ancestor : Bool
  pub parent_is_flex_or_grid : Bool

-- `AncestorCtx::default()`
abbrev pub no_ancestor : AncestorCtx
no_ancestor = record {
  has_overflow_hidden_ancestor = false;
  has_transform_ancestor = false;
  parent_is_flex_or_grid = false;
}

module _ (S : Serde) where
  open S use {Number, F64}

  -- `AncestorCtx::from_node`
  unfoldable pub from_node : DiffNode Number → AncestorCtx → AncestorCtx
  unfolding contains_str
  from_node n parent = record {
    has_overflow_hidden_ancestor =
        parent.has_overflow_hidden_ancestor
        || any (
            is_none_of (style_val S n "box_model" "overflow-x") ("visible" ∷ "clip" ∷ [])
            ∷ is_none_of (style_val S n "box_model" "overflow-y") ("visible" ∷ "clip" ∷ [])
            ∷ []);
    has_transform_ancestor =
        parent.has_transform_ancestor
        || any (
            is_other (style_val S n "transform" "transform") "none"
            ∷ is_other (style_val S n "transform" "perspective") "none"
            ∷ is_other (style_val S n "visual" "filter") "none"
            ∷ is_other (style_val S n "visual" "will-change") "auto"
            ∷ has_part (style_val S n "layout" "contain") "paint"
            ∷ []);
    parent_is_flex_or_grid =
        contains ("flex" ∷ "inline-flex" ∷ "grid" ∷ "inline-grid" ∷ [])
          (or_empty (style_val S n "layout" "display"));
  }

  abbrev pub tag_name : DiffNode Number → String
  tag_name n = or_empty (info n).tag

  abbrev pub is_visible : DiffNode Number → Bool
  is_visible n = or_true (display_visible S n)

  abbrev pub is_focusable : DiffNode Number → Bool
  is_focusable n = elim (bool_of S (field S (info n).aria "focusable")) [
    | some b ↦ b
    | none ↦ or_false (bool_of S (field S (info n).ax "focusable"))
  ]

  abbrev pub has_text : DiffNode Number → Bool
  has_text n = or_false (bool_of S (field S (info n).aria "has_text"))

  abbrev pub has_name : DiffNode Number → Bool
  has_name n = is_other (str_of S (field S (info n).aria "name")) ""

  abbrev pub is_text : DiffNode Number → Bool
  is_text n = has_name n || (has_text n || contains text_tags (tag_name n))

  abbrev pub is_interactive : DiffNode Number → Bool
  is_interactive n = contains interactive_tags (tag_name n)

  abbrev pub line : DiffNode Number → String → RuleStatus → String → CheckLine
  line n check status evidence = record {
    check = check;
    selector = (info n).selector;
    tag = (info n).tag;
    status = status;
    evidence = evidence;
  }

  abbrev both : Option F64 → Option F64 → Option (F64 × F64)
  both (some w) (some h) = some (w, h)
  both _ _ = none

  abbrev pub rect_size : DiffNode Number → Option (F64 × F64)
  rect_size n = both (float_at S (info n).rect "width") (float_at S (info n).rect "height")

  -- left edge and width, as `horizontal-overflow` reads them
  abbrev pub rect_span : DiffNode Number → Option (F64 × F64)
  rect_span n = both (float_at S (info n).rect "x") (float_at S (info n).rect "width")
