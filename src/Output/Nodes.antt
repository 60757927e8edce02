-- ===== src/Output/Nodes.antt =====
-- `node_to_json` of crates/sniff-engine/src/output.rs.
pub mod Loaded
use mathlib.Core.Option
use sniff_css.Prelude.{
  ℕ, String, Bool, true, false, ◌&&◌, Option, none, some, List, [], ◌∷◌, if◌then◌else◌,
}
use sniff_css.Json.{Value, null, number, string, array, object, Items, Map, empty, Serde}
use sniff_css.Json.Floats.{Floats}
use sniff_css.Output.Styles.{OutputConfig, GlobalVars, styles_to_json}
use sniff_css.Output.Hoist.{dedup_styles}
use sniff_css.Output.Snapshots.{
  PseudoStyles, Writer, SnapshotInfo, ElementSnapshot, element, Snapshots, nil, cons, Fields,
  put_fields, noticeable_value, metrics_value, aria_value, ax_value, contrast_value, json_rect,
}

abbrev pub when : {A : Type 0} → Bool → Option A → Option A
when true o = o
when false o = none

module _ (S : Serde) (R : Floats S) (W : Writer S) where
  open S use {Number, insert, from_usize}
  open W use {style_hash}

  -- `attrs.iter().map(...)`
  unfoldable pub put_attrs : List (String × String) → Map Number → Map Number
  put_attrs [] m = m
  put_attrs ((k, v) ∷ attrs) m = put_attrs attrs (insert m k (string v))

  abbrev pub attrs_value : Option (List (String × String)) → Option (Value Number)
  attrs_value none = none
  attrs_value (some []) = none
  attrs_value (some (a ∷ attrs)) = some (object (put_attrs (a ∷ attrs) empty))

  module _ (config : OutputConfig) (vars : Option GlobalVars) (defaults : Option (Map Number)) where
    unfoldable pub put_pseudo : List PseudoStyles → Map Number → Map Number
    put_pseudo [] m = m
    put_pseudo (p ∷ ps) m =
        put_pseudo ps (insert m p.name (object (styles_to_json S p.styles config vars)))

    -- the variable `pseudo_value`
    abbrev pub pseudo_map : List PseudoStyles → Option (Map Number)
    pseudo_map [] = none
    pseudo_map (p ∷ ps) = some (put_pseudo (p ∷ ps) empty)

    abbrev dedup_with : Option (Map Number) → Bool → Map Number → Map Number
    dedup_with none b m = m
    dedup_with (some d) b m = if b then dedup_styles S m d else m

    -- the variable `styles_value`, after the defaults have been dropped
    unfoldable pub node_styles : SnapshotInfo S R → Map Number
    unfolding styles_to_json dedup_styles
    node_styles i =
        dedup_with defaults (config.compact && config.group_by_category)
          (styles_to_json S i.styles config vars)

    unfoldable pub node_hash : SnapshotInfo S R → String
    unfolding styles_to_json put_pseudo
    node_hash i =
        style_hash (object (styles_to_json S i.styles config vars))
          (Option.map object (pseudo_map i.pseudo))

    abbrev pub contrast_or_null : SnapshotInfo S R → Value Number
    contrast_or_null i = elim i.contrast [ none ↦ null | some c ↦ contrast_value S R W c ]

    -- `tree && !snap.children.is_empty()`
    abbrev pub children_value : Bool → Items Number → Option (Value Number)
    children_value as_tree Items.nil = none
    children_value as_tree (Items.cons v vs) = when as_tree (some (array (Items.cons v vs)))

    -- what is inserted, in this order
    abbrev pub node_fields : Bool → SnapshotInfo S R → Items Number → Fields S R
    node_fields as_tree i kids =
        ("id", some (number (from_usize i.id)))
        ∷ ("parent_id", Option.map (λ p. number (from_usize p)) i.parent_id)
        ∷ ("tag", some (string i.tag))
        ∷ ("selector", some (string i.selector))
        ∷ ("path", when config.include_path (some (string i.path)))
        ∷ ("depth", some (number (from_usize i.depth)))
        ∷ ("rect", when config.include_rect (Option.map (json_rect S R W) i.rect))
        ∷ ("metrics", when config.include_metrics (Option.map (metrics_value S R) i.metrics))
        ∷ (
          "is_user_noticeable",
          when config.include_visibility (Option.map (noticeable_value S R) i.noticeable),
        )
        ∷ ("aria", Option.map (aria_value S R) i.aria)
        ∷ ("contrast", some (contrast_or_null i))
        ∷ ("ax", Option.map (ax_value S R W) i.ax)
        ∷ ("attrs", attrs_value i.attributes)
        ∷ ("computed_style_hash", when config.include_style_hash (some (string (node_hash i))))
        ∷ ("styles", some (object (node_styles i)))
        ∷ ("pseudo", Option.map object (pseudo_map i.pseudo))
        ∷ ("children", children_value as_tree kids)
        ∷ []

    -- The children are written whether `tree` holds or not, and then dropped.
    unfoldable mutual
      unfolding put_fields

      pub node_to_json : Bool → ElementSnapshot S R → Value Number
      node_to_json as_tree (element i cs) =
          object (put_fields S R (node_fields as_tree i (children_to_json cs)) empty)

      pub children_to_json : Snapshots S R → Items Number
      children_to_json nil = Items.nil
      children_to_json (cons c cs) = Items.cons (node_to_json true c) (children_to_json cs)
