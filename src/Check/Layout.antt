-- ===== src/Check/Layout.antt =====
-- The rules of `check_node` in crates/sniff-css-check/src/rules.rs from
-- `sticky-in-overflow-hidden` to `width-100-with-padding`.
use sniff_css.Prelude.{String, Bool, false, ◌&&◌, ◌||◌, not, none, some, List, [], ◌∷◌}
use sniff_css.Json.{Serde}
use sniff_css.Json.Floats.{Floats}
use sniff_css.Model.{DiffNode, info}
use sniff_css.Check.Nodes.{warn, fail, CheckLine, is_str, is_other, bool_of, field, style_val}
use sniff_css.Check.Facts.{
  AncestorCtx, or_false, concat, any, is_one_of, is_none_of, when, tag_name, is_visible,
  is_focusable, is_text, is_interactive, line, rect_size,
}

module _ (S : Serde) (R : Floats S) where
  open S use {Number, F64, fle}
  open R use {hundredths}

  abbrev has_position : DiffNode Number → String → Bool
  has_position n p = is_str (style_val S n "layout" "position") p

  unfoldable pub check_sticky : DiffNode Number → AncestorCtx → List CheckLine
  check_sticky n ctx =
      when (is_visible S n && (has_position n "sticky" && ctx.has_overflow_hidden_ancestor)) (
        line S n "sticky-in-overflow-hidden" warn
          "position:sticky inside an overflow:hidden/auto/scroll ancestor — the stickiness never engages")

  unfoldable pub check_fixed : DiffNode Number → AncestorCtx → List CheckLine
  check_fixed n ctx =
      when (is_visible S n && (has_position n "fixed" && ctx.has_transform_ancestor)) (
        line S n "fixed-broken-by-transform" warn
          "position:fixed inside a transformed/filtered ancestor — the element is positioned relative to that ancestor, not the viewport")

  -- an inset that is there and is not `auto`
  abbrev inset : DiffNode Number → String → Bool
  inset n p = is_other (style_val S n "layout" p) "auto"

  abbrev has_inset : DiffNode Number → Bool
  has_inset n = any (
      inset n "top"
      ∷ inset n "right"
      ∷ inset n "bottom"
      ∷ inset n "left"
      ∷ inset n "inset-block-start"
      ∷ inset n "inset-block-end"
      ∷ inset n "inset-inline-start"
      ∷ inset n "inset-inline-end"
      ∷ [])

  abbrev is_likely_overlay : DiffNode Number → Bool
  is_likely_overlay n = elim (rect_size S n) [
    | none ↦ false
    | some (w, h) ↦ fle (hundredths 30000) w && fle (hundredths 30000) h
  ]

  unfoldable pub check_absolute : DiffNode Number → List CheckLine
  check_absolute n =
      when
        (is_visible S n
          && (has_position n "absolute" && (not (has_inset n) && not (is_likely_overlay n))))
        (line S n "absolute-without-insets" warn
          "position:absolute with no top/right/bottom/left — the element stays at its static position (a common dropdown/overlay bug)")

  unfoldable pub check_pointer_events : DiffNode Number → List CheckLine
  check_pointer_events n =
      when
        (is_visible S n
          && (is_interactive S n && is_str (style_val S n "interaction" "pointer-events") "none"))
        (line S n "interactive-pointer-events-none" fail (
          concat (
            "interactive "
            ∷ tag_name S n
            ∷ " has pointer-events:none — it cannot be clicked or tapped"
            ∷ [])))

  unfoldable pub check_aria_hidden : DiffNode Number → List CheckLine
  check_aria_hidden n =
      when (is_focusable S n && or_false (bool_of S (field S (info n).aria "ariaHidden"))) (
        line S n "aria-hidden-focusable" fail
          "aria-hidden=\"true\" on a focusable element — keyboard focus lands on invisible content (WCAG 4.1.2)")

  abbrev clips : DiffNode Number → String → Bool
  clips n p = is_one_of (style_val S n "box_model" p) ("hidden" ∷ "clip" ∷ "auto" ∷ "scroll" ∷ [])

  unfoldable pub check_ellipsis : DiffNode Number → List CheckLine
  check_ellipsis n =
      when
        (is_visible S n
          && (is_text S n
              && (is_str (style_val S n "typography" "text-overflow") "ellipsis"
                  && (not (clips n "overflow-x" || clips n "overflow-y")
                      && not (
                          is_one_of (style_val S n "typography" "white-space")
                            ("nowrap" ∷ "pre" ∷ []))))))
        (line S n "ellipsis-without-clip" warn
          "text-overflow:ellipsis needs overflow:hidden (and usually white-space:nowrap) to take effect")

  abbrev pads : DiffNode Number → String → Bool
  pads n p = is_none_of (style_val S n "box_model" p) ("0px" ∷ "0" ∷ [])

  abbrev has_padding : DiffNode Number → Bool
  has_padding n = any (
      pads n "padding-top"
      ∷ pads n "padding-right"
      ∷ pads n "padding-bottom"
      ∷ pads n "padding-left"
      ∷ [])

  unfoldable pub check_full_width : DiffNode Number → List CheckLine
  check_full_width n =
      when
        (is_visible S n
          && (is_str (style_val S n "box_model" "box-sizing") "content-box"
              && ((is_str (style_val S n "box_model" "width") "100%"
                    || is_str (style_val S n "box_model" "min-width") "100%")
                  && has_padding n)))
        (line S n "width-100-with-padding" warn
          "width:100% with box-sizing:content-box and padding overflows its container — use box-sizing:border-box")
