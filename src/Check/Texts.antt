-- ===== src/Check/Texts.antt =====
-- The rules of `check_node` in crates/sniff-css-check/src/rules.rs from `small-text` on.
use Prim.Native.Char.{code}
use sniff_css.Prelude.{
  String, Bool, false, ◌&&◌, ◌||◌, not, Option, none, some, List, [], ◌∷◌, if◌then◌else◌, leb, ◌==◌,
  is_some, contains, decimal, str_eq, trim,
}
use sniff_css.Json.{Serde}
use sniff_css.Json.Floats.{Floats, f64_to_u32}
use sniff_css.Model.{DiffNode, info}
use sniff_css.Model.Load.{str_of}
use sniff_css.Contrast.Strings.{strip_prefix, strip_suffix}
use sniff_css.Check.Nodes.{warn, CheckLine, text_tags, is_str, field, style_val, rect_coords}
use sniff_css.Check.Facts.{
  AncestorCtx, concat, is_one_of, when, tag_name, is_visible, is_text, has_text, has_name,
  is_interactive, line, rect_span,
}

abbrev or_question : Option String → String
or_question none = "?"
or_question (some s) = s

abbrev first_some : Option String → Option String → Option String
first_some none o = o
first_some (some s) o = some s

-- a `z-index` that starts like a number
abbrev starts_number : String → Bool
starts_number String.[] = false
starts_number (String.◌∷◌ c s) = (leb b'0' (code c) && leb (code c) b'9') || code c == b'-'

abbrev is_numeric : Option String → Bool
is_numeric none = false
is_numeric (some v) = not (str_eq v "auto") && starts_number v

abbrev is_url : Option String → Bool
is_url none = false
is_url (some v) = not (str_eq v "none") && is_some (strip_prefix "url(" v)

module _ (S : Serde) (R : Floats S) where
  open S use {Number, F64, parse_f64, fle, flt, zero}
  open R use {add, mul, div, hundredths, show_fixed}

  abbrev scaled_by : F64 → Option F64 → Option F64
  scaled_by k none = none
  scaled_by k (some x) = some (mul x k)

  abbrev parsed : String → Option F64
  parsed n = parse_f64 (trim n)

  -- the units `px`, `rem` and `em`, of 16 pixels, or `other`
  unfoldable pub length_or : String → Option F64 → Option F64
  unfolding strip_suffix trim
  length_or t other = elim (strip_suffix "px" t) [
    | some n ↦ parsed n
    | none ↦ elim (strip_suffix "rem" t) [
      | some n ↦ scaled_by (hundredths 1600) (parsed n)
      | none ↦ elim (strip_suffix "em" t) [
        | some n ↦ scaled_by (hundredths 1600) (parsed n)
        | none ↦ other
      ]
    ]
  ]

  abbrev pub parse_px : Option String → Option F64
  parse_px none = none
  parse_px (some v) = length_or (trim v) (parse_f64 (trim v))

  abbrev multiplied : Option F64 → Option F64 → Option F64
  multiplied none size = none
  multiplied (some k) size = elim size [ none ↦ none | some fs ↦ some (mul fs k) ]

  abbrev pub parse_line_height : Option String → Option F64 → Option F64
  parse_line_height none size = none
  parse_line_height (some v) size =
      if str_eq (trim v) "normal"
      then multiplied (some (hundredths 120)) size
      else length_or (trim v) (multiplied (parse_f64 (trim v)) size)

  abbrev thousandth : Option F64 → Option F64
  thousandth none = none
  thousandth (some x) = some (div x (hundredths 100000))

  unfoldable pub parse_duration : Option String → Option F64
  unfolding strip_suffix trim
  parse_duration none = none
  parse_duration (some v) = elim (strip_suffix "ms" (trim v)) [
    | some n ↦ thousandth (parsed n)
    | none ↦ elim (strip_suffix "s" (trim v)) [ some n ↦ parsed n | none ↦ parse_f64 (trim v) ]
  ]

  abbrev font_size : DiffNode Number → Option F64
  font_size n = parse_px (style_val S n "typography" "font-size")

  unfoldable pub check_small_text : DiffNode Number → List CheckLine
  unfolding length_or
  check_small_text n = elim (font_size n) [
    | none ↦ []
    | some px ↦
        when (is_visible S n && (is_text S n && (flt zero px && flt px (hundredths 1200)))) (
          line S n "small-text" warn (
            concat (
              "font-size "
              ∷ or_question (style_val S n "typography" "font-size")
              ∷ " is below the ~12px comfortable minimum"
              ∷ [])))
  ]

  abbrev is_clickable : DiffNode Number → Bool
  is_clickable n = is_interactive S n || is_str (style_val S n "interaction" "cursor") "pointer"

  abbrev image_tags : List String
  image_tags = "img" ∷ "IMG" ∷ "div" ∷ "DIV" ∷ "li" ∷ "LI" ∷ "a" ∷ "A" ∷ "figure" ∷ "FIGURE" ∷ []

  unfoldable pub check_small_thumbnail : DiffNode Number → List CheckLine
  unfolding rect_coords strip_prefix
  check_small_thumbnail n = elim (rect_coords S n) [
    | none ↦ []
    | some r ↦
        when
          (is_visible S n
            && (is_url (style_val S n "visual" "background-image")
                && (is_clickable n
                    && (contains image_tags (tag_name S n)
                        && (flt r.w (hundredths 15000) || flt r.h (hundredths 15000))))))
          (line S n "small-thumbnail" warn (
            concat (
              "image thumbnail is "
              ∷ decimal (f64_to_u32 S R r.w)
              ∷ "×"
              ∷ decimal (f64_to_u32 S R r.h)
              ∷ "px (recommended minimum 150×150 for comfortable viewing)"
              ∷ [])))
  ]

  abbrev line_height_lines : DiffNode Number → Option F64 → Option F64 → List CheckLine
  line_height_lines n (some fs) (some lh) =
      when (is_visible S n && (is_text S n && (flt zero lh && flt lh fs))) (
        line S n "line-height-below-font-size" warn (
          concat (
            "line-height "
            ∷ show_fixed 1 lh
            ∷ "px is smaller than font-size "
            ∷ show_fixed 1 fs
            ∷ "px — glyphs can clip or overlap"
            ∷ [])))
  line_height_lines n _ _ = []

  unfoldable pub check_line_height : DiffNode Number → List CheckLine
  unfolding length_or
  check_line_height n =
      line_height_lines n (font_size n)
        (parse_line_height (style_val S n "typography" "line-height") (font_size n))

  abbrev z_index_text : DiffNode Number → Option String
  z_index_text n =
      first_some (style_val S n "layout" "z-index") (str_of S (field S (info n).metrics "z_index"))

  unfoldable pub check_static_z_index : DiffNode Number → AncestorCtx → List CheckLine
  check_static_z_index n ctx =
      when
        (is_visible S n
          && (is_numeric (z_index_text n)
              && (is_str (style_val S n "layout" "position") "static"
                  && not ctx.parent_is_flex_or_grid)))
        (line S n "z-index-on-static" warn (
          concat (
            "z-index "
            ∷ or_question (z_index_text n)
            ∷ " on a position:static element is ignored — position the element or make the parent a flex/grid container"
            ∷ [])))

  unfoldable pub check_control_name : DiffNode Number → List CheckLine
  check_control_name n =
      when
        (is_visible S n
          && (is_interactive S n
              && (contains ("INPUT" ∷ "BUTTON" ∷ "SELECT" ∷ "TEXTAREA" ∷ []) (tag_name S n)
                  && (not (has_name S n) && not (has_text S n)))))
        (line S n "control-without-name" warn (
          concat (
            "interactive "
            ∷ tag_name S n
            ∷ " has no accessible name (no text, aria-label or label) — icon-only controls need one"
            ∷ [])))

  unfoldable pub check_user_select : DiffNode Number → List CheckLine
  check_user_select n =
      when
        (is_visible S n
          && (is_text S n
              && (contains text_tags (tag_name S n)
                  && (not (is_interactive S n)
                      && (not (str_eq (tag_name S n) "A")
                          && is_one_of (style_val S n "interaction" "user-select")
                              ("none" ∷ "-webkit-none" ∷ []))))))
        (line S n "text-not-selectable" warn
          "user-select:none on body text prevents users from selecting/copying content")

  unfoldable pub check_animation : DiffNode Number → List CheckLine
  unfolding parse_duration
  check_animation n = elim (parse_duration (style_val S n "animation" "animation-duration")) [
    | none ↦ []
    | some d ↦
        when
          (is_visible S n
            && (is_str (style_val S n "animation" "animation-iteration-count") "infinite"
                && flt d (hundredths 50)))
          (line S n "infinite-fast-animation" warn (
            concat (
              "infinite animation with a "
              ∷ show_fixed 2 d
              ∷ "s cycle may flicker fast enough to trigger photosensitive conditions (WCAG 2.3.1)"
              ∷ [])))
  ]

  unfoldable pub check_transition : DiffNode Number → List CheckLine
  check_transition n =
      when (is_visible S n && is_str (style_val S n "animation" "transition-property") "all") (
        line S n "transition-all" warn
          "transition-property:all animates every property (layout+repaint) — list the specific properties instead")

  unfoldable pub check_body_overflow : DiffNode Number → List CheckLine
  check_body_overflow n =
      when
        (is_visible S n
          && (contains ("HTML" ∷ "BODY" ∷ []) (tag_name S n)
              && is_str
                  (first_some (style_val S n "box_model" "overflow-x")
                    (style_val S n "box_model" "overflow"))
                  "hidden"))
        (line S n "overflow-x-hidden-on-body" warn
          "overflow-x:hidden on the document masks horizontal overflow — find and fix the overflowing element instead")

  abbrev overflow_lines :
      DiffNode Number → AncestorCtx → Option (F64 × F64) → Option (F64 × F64) → List CheckLine
  overflow_lines n ctx (some (vp_w, vp_h)) (some (x, w)) =
      when
        (is_visible S n
          && (not ctx.has_overflow_hidden_ancestor && flt (add vp_w (hundredths 100)) (add x w)))
        (line S n "horizontal-overflow" warn (
          concat (
            "element extends to x="
            ∷ show_fixed 0 x
            ∷ "+"
            ∷ show_fixed 0 w
            ∷ "px, past the "
            ∷ show_fixed 0 vp_w
            ∷ "px viewport — forces horizontal scrolling"
            ∷ [])))
  overflow_lines n ctx _ _ = []

  unfoldable pub check_overflow :
      DiffNode Number → AncestorCtx → Option (F64 × F64) → List CheckLine
  check_overflow n ctx viewport = overflow_lines n ctx viewport (rect_span S n)
