-- ===== src/Check/Walk.antt =====
-- `run_rules`, `run_children` and `check_node` of crates/sniff-css-check/src/rules.rs.
use sniff_css.Prelude.{Option, List, [], ◌∷◌, ◌++◌}
use sniff_css.Json.{Serde}
use sniff_css.Json.Floats.{Floats}
use sniff_css.Model.{DiffNode, node, Forest, nil, cons}
use sniff_css.Check.Nodes.{CheckLine}
use sniff_css.Check.Occlusion.{check_occlusion}
use sniff_css.Check.Backdrop.{check_backdrop_over_modal}
use sniff_css.Check.Facts.{AncestorCtx, no_ancestor, from_node}
use sniff_css.Check.Measured.{
  check_contrast, check_target_size, check_focus_indicator, check_hidden_focusable, check_empty_alt,
}
use sniff_css.Check.Layout.{
  check_sticky, check_fixed, check_absolute, check_pointer_events, check_aria_hidden,
  check_ellipsis, check_full_width,
}
use sniff_css.Check.Texts.{
  check_small_text, check_small_thumbnail, check_line_height, check_static_z_index,
  check_control_name, check_user_select, check_animation, check_transition, check_body_overflow,
  check_overflow,
}

module _ (S : Serde) (R : Floats S) where
  open S use {Number, F64}

  abbrev joined : List (List CheckLine) → List CheckLine
  joined [] = []
  joined (ls ∷ lss) = ls ++ joined lss

  -- the lines that `check_node` pushes, in its order
  unfoldable pub check_node : DiffNode Number → AncestorCtx → Option (F64 × F64) → List CheckLine
  check_node n ctx viewport = joined (
      check_contrast S R n
      ∷ check_target_size S R n
      ∷ check_focus_indicator S R n
      ∷ check_hidden_focusable S R n
      ∷ check_empty_alt S R n
      ∷ check_sticky S R n ctx
      ∷ check_fixed S R n ctx
      ∷ check_absolute S R n
      ∷ check_pointer_events S R n
      ∷ check_aria_hidden S R n
      ∷ check_ellipsis S R n
      ∷ check_full_width S R n
      ∷ check_small_text S R n
      ∷ check_small_thumbnail S R n
      ∷ check_line_height S R n
      ∷ check_static_z_index S R n ctx
      ∷ check_control_name S R n
      ∷ check_user_select S R n
      ∷ check_animation S R n
      ∷ check_transition S R n
      ∷ check_body_overflow S R n
      ∷ check_overflow S R n ctx viewport
      ∷ [])

  unfoldable mutual
    -- a node with its descendants: `check_node`, then `run_children`
    pub run_node :
        DiffNode Number → AncestorCtx → Option (F64 × F64) → List CheckLine → List CheckLine
    run_node (node i f) ctx viewport out =
        run_forest f (from_node S (node i f) ctx) viewport
          (out ++ check_node (node i f) ctx viewport)

    pub run_forest :
        Forest Number → AncestorCtx → Option (F64 × F64) → List CheckLine → List CheckLine
    run_forest nil ctx viewport out = out
    run_forest (cons x f) ctx viewport out = run_forest f ctx viewport (run_node x ctx viewport out)

  unfoldable pub run_rules : Forest Number → Option (F64 × F64) → List CheckLine
  unfolding run_node check_occlusion check_backdrop_over_modal
  run_rules nodes viewport =
      (run_forest nodes no_ancestor viewport [] ++ check_occlusion S R nodes)
      ++ check_backdrop_over_modal S R nodes viewport
