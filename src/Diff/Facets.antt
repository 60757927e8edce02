-- ===== src/Diff/Facets.antt =====
-- The facets of a node pair, and the lines that report nodes (crates/sniff-css-diff/src/diff.rs).
pub mod Self
use mathlib.Core.Option
use sniff_css.Prelude.{Bool, true, false, not, ◌||◌, Option, none, some, if◌then◌else◌}
use sniff_css.Json.{Value, number, string, object, Map, empty, as_object, Serde, option_eq}
use sniff_css.Json.Collect.{put_some, nonempty_object}
use sniff_css.Model.{NodeInfo}
use sniff_css.Diff.Options.{DiffOptions, DeltaLine}
use sniff_css.Diff.Values.{json_before_after, style_diff, pseudo_diff, object_diff, get_opt}

pub record Rect (F : Type 0) : Type 0 where
  pub x : F
  pub y : F
  pub width : F
  pub height : F

module _ (S : Serde) where
  open S use {Number, F64, as_f64, sub, abs, flt, from_usize, insert}

  -- `Value::as_f64`
  abbrev pub value_f64 : Option (Value Number) → Option F64
  value_f64 (some (number n)) = as_f64 n
  value_f64 _ = none

  abbrev pub rect_of : Option F64 → Option F64 → Option F64 → Option F64 → Option (Rect F64)
  rect_of (some x) (some y) (some w) (some h) =
      some (record { x = x; y = y; width = w; height = h })
  rect_of _ _ _ _ = none

  unfoldable pub rect_coords : Value Number → Option (Rect F64)
  rect_coords v =
      let o = as_object v in
      rect_of (value_f64 (get_opt S o "x")) (value_f64 (get_opt S o "y"))
        (value_f64 (get_opt S o "width")) (value_f64 (get_opt S o "height"))

  -- `deltas.iter().any(|d| *d > tolerance)`
  abbrev pub moved : F64 → Rect F64 → Rect F64 → Bool
  moved tol a c =
      flt tol (abs (sub a.x c.x))
      || flt tol (abs (sub a.y c.y))
      || flt tol (abs (sub a.width c.width))
      || flt tol (abs (sub a.height c.height))

  abbrev pub coords_changed :
      F64 → Value Number → Value Number → Option (Rect F64) → Option (Rect F64) → Bool
  coords_changed tol b h (some a) (some c) = moved tol a c
  coords_changed tol b h _ _ = not (S.value_eq b h)

  unfoldable pub rect_changed : F64 → Option (Value Number) → Option (Value Number) → Bool
  rect_changed tol none none = false
  rect_changed tol (some b) (some h) = coords_changed tol b h (rect_coords b) (rect_coords h)
  rect_changed tol _ _ = true

  unfoldable pub rect_diff :
      Option (Value Number) → Option (Value Number) → DiffOptions S → Option (Value Number)
  unfolding rect_changed
  rect_diff base head opts =
      if rect_changed opts.tolerance base head then some (json_before_after S base head) else none

  -- a facet that is compared as a whole: `metrics`, `is_user_noticeable`
  abbrev pub whole_diff : Option (Value Number) → Option (Value Number) → Option (Value Number)
  whole_diff base head =
      if not (option_eq S base head) then some (json_before_after S base head) else none

  -- the map that `compute_changes` fills, facet by facet
  unfoldable pub changes_map : NodeInfo Number → NodeInfo Number → DiffOptions S → Map Number
  changes_map base head opts =
      let m1 = put_some S empty "styles" (style_diff S base.styles head.styles opts) in
      let m2 = put_some S m1 "pseudo" (pseudo_diff S base.pseudo head.pseudo opts) in
      let m3 = put_some S m2 "rect" (rect_diff base.rect head.rect opts) in
      let m4 = put_some S m3 "metrics" (whole_diff base.metrics head.metrics) in
      let m5 = put_some S m4 "is_user_noticeable" (whole_diff base.noticeable head.noticeable) in
      let m6 = put_some S m5 "aria" (object_diff S base.aria head.aria) in
      let m7 = put_some S m6 "contrast" (object_diff S base.contrast head.contrast) in
      let m8 = put_some S m7 "ax" (object_diff S base.ax head.ax) in
      put_some S m8 "attrs" (object_diff S base.attributes head.attributes)

  unfoldable pub compute_changes :
      NodeInfo Number → NodeInfo Number → DiffOptions S → Option (Value Number)
  unfolding changes_map
  compute_changes base head opts = nonempty_object S (changes_map base head opts)

  -- Full style snapshot of a node (no ids, no children).
  unfoldable pub snapshot_value : NodeInfo Number → Value Number
  snapshot_value n =
      let m1 = put_some S empty "tag" (Option.map string n.tag) in
      let m2 = put_some S m1 "path" (Option.map string n.path) in
      let m3 = put_some S m2 "depth" (Option.map (λ d. number (from_usize d)) n.depth) in
      let m4 = put_some S m3 "rect" n.rect in
      let m5 = put_some S m4 "metrics" n.metrics in
      let m6 = put_some S m5 "is_user_noticeable" n.noticeable in
      let m7 = put_some S m6 "styles" (Option.map object n.styles) in
      object (put_some S m7 "pseudo" (Option.map object n.pseudo))

  unfoldable pub added_line : NodeInfo Number → DeltaLine Number
  added_line n = record {
    status = "ADDED";
    selector = n.selector;
    tag = n.tag;
    path = n.path;
    depth = n.depth;
    changes = none;
    snapshot = some (snapshot_value n);
  }

  unfoldable pub removed_line : NodeInfo Number → DeltaLine Number
  removed_line n = record {
    status = "REMOVED";
    selector = n.selector;
    tag = n.tag;
    path = n.path;
    depth = n.depth;
    changes = none;
    snapshot = some (snapshot_value n);
  }

  unfoldable pub changed_line : NodeInfo Number → Value Number → DeltaLine Number
  changed_line head changes = record {
    status = "CHANGED";
    selector = head.selector;
    tag = head.tag;
    path = head.path;
    depth = head.depth;
    changes = some changes;
    snapshot = none;
  }
