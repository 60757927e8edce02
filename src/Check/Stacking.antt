-- ===== src/Check/Stacking.antt =====
-- Stacking contexts and paint order of crates/sniff-css-check/src/rules.rs.
pub mod Order
use sniff_css.Prelude.{
  ℕ, zero, suc, ℤ, ltb_int, eq_int, String, Bool, true, false, ◌&&◌, ◌||◌, not, Option, none, some,
  List, [], ◌∷◌, ltb, leb, if◌then◌else◌, get_elem?, contains, is_some, str_eq,
}
use sniff_css.Json.{Serde}
use sniff_css.Model.{DiffNode, info}
use sniff_css.Json.Floats.{Floats}
use sniff_css.Check.Nodes.{
  or_empty, is_str, is_other, is_bool, bool_of, field, style_val, node_z_index,
}
use sniff_css.Check.Flatten.{Flat}

abbrev svg_elements : List String
svg_elements =
    "circle" ∷ "ellipse" ∷ "line" ∷ "path" ∷ "polygon" ∷ "polyline" ∷ "rect" ∷ "text" ∷ "use" ∷ "g"
    ∷ []

module _ (S : Serde) where
  open S use {Number, F64, parse_f64, flt}

  abbrev pub tag_of : Flat S → String
  tag_of f = or_empty (info f.node_of).tag

  -- the loop `for pos in (0..n).rev()`: the nearest `svg` in front decides
  unfoldable pub svg_before : List (Flat S) → Flat S → ℕ → Bool
  svg_before flat b zero = false
  svg_before flat b (suc pos) =
      let rest = svg_before flat b pos in
      elim (get_elem? flat pos) [
        | none ↦ rest
        | some anc ↦
            if str_eq (tag_of anc) "svg" then leb anc.idx b.idx && leb b.end anc.end else rest
      ]

  unfoldable pub same_svg_container : List (Flat S) → Flat S → Flat S → Bool
  unfolding svg_before
  same_svg_container flat a b =
      if not (contains svg_elements (tag_of a)) || not (contains svg_elements (tag_of b))
      then false
      else svg_before flat b a.idx

  module _ (R : Floats S) where
    open R use {hundredths}

    abbrev below_one : Option String → Bool
    below_one none = false
    below_one (some v) = elim (parse_f64 v) [ none ↦ false | some x ↦ flt x (hundredths 100) ]

    abbrev position_of : Option String → String
    position_of none = "static"
    position_of (some p) = p

    unfoldable pub creates_stacking_context : DiffNode Number → Bool
    unfolding node_z_index
    creates_stacking_context n =
        if is_bool (bool_of S (field S (info n).metrics "stacking_context")) true
        then true
        else if not (str_eq (position_of (style_val S n "layout" "position")) "static")
            && is_some (node_z_index S R n)
        then true
        else if below_one (style_val S n "visual" "opacity")
        then true
        else if is_other (style_val S n "transform" "transform") "none"
        then true
        else if is_other (style_val S n "visual" "filter") "none"
        then true
        else is_str (style_val S n "visual" "isolation") "isolate"

    -- the loop `for j in (0..n).rev()` over what stands in front of index `idx`
    unfoldable pub climb : List (Flat S) → ℕ → ℕ → Option ℤ
    unfolding creates_stacking_context
    climb flat idx zero = none
    climb flat idx (suc j) =
        let rest = climb flat idx j in
        elim (get_elem? flat j) [
          | none ↦ rest
          | some fj ↦
              if leb fj.idx idx && leb idx fj.end
              then (if creates_stacking_context fj.node_of
                  then node_z_index S R fj.node_of
                  else rest)
              else if ltb idx fj.idx
              then none
              else rest
        ]

    unfoldable pub effective_z_index : List (Flat S) → Flat S → Option ℤ
    unfolding climb
    effective_z_index flat f =
        if creates_stacking_context f.node_of
        then node_z_index S R f.node_of
        else climb flat f.idx f.idx

    -- the decision of `paints_above` on two effective z-indices and two positions
    abbrev pub above : Option ℤ → Option ℤ → ℕ → ℕ → Bool
    above (some va) (some vb) i j = if eq_int va vb then ltb j i else ltb_int vb va
    above (some va) none i j = true
    above none (some vb) i j = false
    above none none i j = ltb j i

    unfoldable pub paints_above : List (Flat S) → Flat S → Flat S → Bool
    unfolding effective_z_index
    paints_above flat a b = above (effective_z_index flat a) (effective_z_index flat b) a.idx b.idx
