-- ===== src/Output/Lines.antt =====
-- The lines that `write_output` of crates/sniff-engine/src/output.rs writes in the formats JsonLines
-- and JsonLinesFlat, as values.
pub mod Read
pub mod Flat
pub mod Mixed
use sniff_css.Prelude.{
  ℕ, String, Bool, true, false, Option, none, some, List, [], ◌∷◌, ◌++◌, ◌&&◌, ltb, length,
  if◌then◌else◌,
}
use sniff_css.Json.{Value, number, object, Map, empty, is_empty, Serde}
use sniff_css.Json.Floats.{Floats}
use sniff_css.Output.Styles.{Groups, OutputConfig, GlobalVars, compacted_styles}
use sniff_css.Output.Hoist.{category_defaults}
use sniff_css.Output.Snapshots.{
  Writer, SnapshotInfo, ElementSnapshot, element, Snapshots, nil, cons, Fields, put_fields,
}
use sniff_css.Output.Nodes.{put_attrs, node_to_json}

-- `Viewport`
pub record Viewport : Type 0 where
  pub width : ℕ
  pub height : ℕ

module _ (S : Serde) (R : Floats S) (W : Writer S) where
  open S use {Number, insert, from_usize}

  -- `SniffOutcome`, its variables collected into `global`
  pub record SniffOutcome : Type 0 where
    pub snapshots : Snapshots S R
    pub global : Option GlobalVars
    pub ax_tree : Option (Value Number)
    pub actions : Option (Value Number)

  -- `flatten`, which pushes the nodes in pre-order
  unfoldable mutual
    pub flatten : ElementSnapshot S R → List (SnapshotInfo S R × Snapshots S R)
    flatten (element i cs) = (i, cs) ∷ flatten_all cs

    pub flatten_all : Snapshots S R → List (SnapshotInfo S R × Snapshots S R)
    flatten_all nil = []
    flatten_all (cons c cs) = flatten c ++ flatten_all cs

  abbrev compacted_all : OutputConfig → List (SnapshotInfo S R × Snapshots S R) → List (Map Number)
  compacted_all config [] = []
  compacted_all config ((i, cs) ∷ nodes) =
      compacted_styles S i.styles config ∷ compacted_all config nodes

  unfoldable pub compute_style_defaults : Snapshots S R → OutputConfig → Map Number
  unfolding flatten category_defaults compacted_styles
  compute_style_defaults snapshots config =
      let nodes = flatten_all snapshots in
      if ltb (length nodes) 2 then empty else category_defaults S (compacted_all config nodes)

  -- the variable `defaults`
  unfoldable pub line_defaults : SniffOutcome → OutputConfig → Map Number
  unfolding compute_style_defaults
  line_defaults outcome config =
      if config.compact && config.group_by_category
      then compute_style_defaults outcome.snapshots config
      else empty

  -- `vars_to_json`, unless there are no variables
  abbrev pub vars_value : Option GlobalVars → Option (Value Number)
  vars_value none = none
  vars_value (some vars) = elim vars.entries [
    | [] ↦ none
    | _ ∷ _ ↦ some (object (put_attrs S R W vars.entries empty))
  ]

  abbrev pub defaults_value : Map Number → Option (Value Number)
  defaults_value d = if is_empty d then none else some (object d)

  abbrev pub viewport_value : Option Viewport → Option (Value Number)
  viewport_value none = none
  viewport_value (some v) = some (
      object (
        put_fields S R
          (("width", some (number (from_usize v.width)))
            ∷ ("height", some (number (from_usize v.height)))
            ∷ [])
          empty))

  abbrev pub meta_fields : Option GlobalVars → Map Number → Option Viewport → Fields S R
  meta_fields global defaults viewport =
      ("css_variables", vars_value global)
      ∷ ("style_defaults", defaults_value defaults)
      ∷ ("viewport", viewport_value viewport)
      ∷ []

  abbrev pub lone : String → Value Number → Value Number
  lone k v = object (insert empty k v)

  abbrev pub meta_line : Map Number → List (Value Number)
  meta_line meta = if is_empty meta then [] else lone "__meta" (object meta) ∷ []

  -- `emit_meta_line`
  unfoldable pub emit_meta_line :
      Option GlobalVars → Map Number → Option Viewport → List (Value Number)
  unfolding put_fields
  emit_meta_line global defaults viewport =
      meta_line (put_fields S R (meta_fields global defaults viewport) empty)

  -- `emit_ax_tree_line` and `emit_actions_line`
  abbrev pub emit_lone : String → Option (Value Number) → List (Value Number)
  emit_lone k none = []
  emit_lone k (some v) = lone k v ∷ []

  abbrev pub flat_lines :
      OutputConfig
      → Option GlobalVars
      → Map Number
      → List (SnapshotInfo S R × Snapshots S R)
      → List (Value Number)
  flat_lines config global defaults [] = []
  flat_lines config global defaults ((i, cs) ∷ nodes) =
      node_to_json S R W config global (some defaults) false (element i cs)
      ∷ flat_lines config global defaults nodes

  abbrev pub tree_lines :
      OutputConfig → Option GlobalVars → Map Number → Snapshots S R → List (Value Number)
  tree_lines config global defaults nil = []
  tree_lines config global defaults (cons s ss) =
      node_to_json S R W config global (some defaults) true s ∷ tree_lines config global defaults ss

  abbrev pub header_lines : SniffOutcome → Map Number → Option Viewport → List (Value Number)
  header_lines outcome defaults viewport =
      emit_meta_line outcome.global defaults viewport
      ++ (emit_lone "__ax_tree" outcome.ax_tree ++ emit_lone "__actions" outcome.actions)

  -- the format JsonLines if `as_tree`, and JsonLinesFlat otherwise
  unfoldable pub write_lines :
      Bool → SniffOutcome → OutputConfig → Option Viewport → List (Value Number)
  unfolding line_defaults emit_meta_line node_to_json flatten
  write_lines true outcome config viewport =
      header_lines outcome (line_defaults outcome config) viewport
      ++ tree_lines config outcome.global (line_defaults outcome config) outcome.snapshots
  write_lines false outcome config viewport =
      header_lines outcome (line_defaults outcome config) viewport
      ++ flat_lines config outcome.global (line_defaults outcome config)
          (flatten_all outcome.snapshots)
