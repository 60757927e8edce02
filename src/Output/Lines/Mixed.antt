-- ===== src/Output/Lines/Mixed.antt =====
-- Roots with and without children in the lines of JsonLines.
use sniff_css.Prelude.{String, ◌≡◌, refl, ap, ◌∙◌, true, false, Option, none, some, List}
use sniff_css.Json.{object, Map, empty, Serde, MapLaws}
use sniff_css.Json.Floats.{Floats}
use sniff_css.Model.Load.{
  Loading, from_value, nothing_loaded, add_node, check_mode, load_value, load_lines, ok, err,
  mixed_layout, ◌>>=◌,
}
use sniff_css.Output.Styles.{OutputConfig, GlobalVars}
use sniff_css.Output.Snapshots.{
  Writer, SnapshotInfo, ElementSnapshot, element, Snapshots, nil, cons, put_fields,
}
use sniff_css.Output.Nodes.{node_fields, node_to_json, children_to_json}
use sniff_css.Output.Nodes.Loaded.{find_field, get-object}
use sniff_css.Output.Lines.{
  Viewport, SniffOutcome, line_defaults, header_lines, tree_lines, write_lines,
}
use sniff_css.Output.Lines.Read.{
  Printed, load_values, load_lines-values, load_values-append, load_value-object, load_by,
  header_lines-read,
}

module _ (S : Serde) (L : MapLaws S) (R : Floats S) (W : Writer S) (config : OutputConfig)
    (global : Option GlobalVars) where
  open S use {Number}

  -- a node is read by its fields
  node_by_fields :
      (d : Map Number) (i : SnapshotInfo S R) (cs : Snapshots S R) (s : Loading S)
      → load_value S (node_to_json S R W config global (some d) true (element i cs)) s
        ≡ load_by S L
            (find_field S R L (
              node_fields S R W config global
                (some d)
                true
                i
                (children_to_json S R W config global (some d) cs)))
            (from_value S (node_to_json S R W config global (some d) true (element i cs)))
            s
  unfolding node_to_json
  node_by_fields d i cs s =
      let kids = children_to_json S R W config global (some d) cs in
      let fs = node_fields S R W config global (some d) true i kids in
      load_value-object S L _ s
      ∙ ap (λ f. load_by S L f (from_value S (object (put_fields S R fs empty))) s)
          (get-object S R L fs refl)

  branch_accepted :
      (d : Map Number) (i : SnapshotInfo S R) (c : ElementSnapshot S R) (cs : Snapshots S R)
      (s : Loading S)
      → s.mode ≡ none
      → load_value S (node_to_json S R W config global (some d) true (element i (cons c cs))) s
        ≡ ok (
            add_node S true
              (from_value S
                (node_to_json S R W config global (some d) true (element i (cons c cs))))
              (record s { mode = some true }))
  unfolding children_to_json
  branch_accepted d i c cs s m =
      node_by_fields d i (cons c cs) s
      ∙ ap
          (λ o. check_mode S o true s >>= λ t. ok (
            add_node S true
              (from_value S
                (node_to_json S R W config global (some d) true (element i (cons c cs))))
              t))
          m

  leaf_refused :
      (d : Map Number) (j : SnapshotInfo S R) (s : Loading S)
      → s.mode ≡ some true
      → load_value S (node_to_json S R W config global (some d) true (element j nil)) s
        ≡ err mixed_layout
  unfolding children_to_json
  leaf_refused d j s m =
      node_by_fields d j nil s
      ∙ ap
          (λ o. check_mode S o false s >>= λ t. ok (
            add_node S false
              (from_value S (node_to_json S R W config global (some d) true (element j nil))) t))
          m

  roots_refused :
      (d : Map Number) (i j : SnapshotInfo S R) (c : ElementSnapshot S R) (cs rest : Snapshots S R)
      (s : Loading S)
      → s.mode ≡ none
      → load_values S L
          (tree_lines S R W config global d
            (cons (element i (cons c cs)) (cons (element j nil) rest)))
          s
        ≡ err mixed_layout
  unfolding load_values
  roots_refused d i j c cs rest s m =
      let last = load_values S L (tree_lines S R W config global d rest) in
      let leaf = node_to_json S R W config global (some d) true (element j nil) in
      ap (λ r. r >>= λ t. load_value S leaf t >>= last) (branch_accepted d i c cs s m)
      ∙ ap (λ r. r >>= last) (leaf_refused d j _ refl)

-- The loader refuses some captures that the writer writes in the format JsonLines: if the first
-- root of a capture has children and the second has none, and each line is the text of the value
-- that was written, then reading the lines ends with the error of mixed layouts.
pub load_lines-mixed_layout :
    (S : Serde) (L : MapLaws S) (R : Floats S) (W : Writer S) (lines : List String)
    (outcome : SniffOutcome S R W) (config : OutputConfig) (viewport : Option Viewport)
    (i j : SnapshotInfo S R) (c : ElementSnapshot S R) (cs rest : Snapshots S R)
    → outcome.snapshots ≡ cons (element i (cons c cs)) (cons (element j nil) rest)
    → Printed S L lines (write_lines S R W true outcome config viewport)
    → load_lines S lines (nothing_loaded S) ≡ err mixed_layout
unfolding write_lines
load_lines-mixed_layout S L R W lines outcome config viewport i j c cs rest e p =
    let d = line_defaults S R W outcome config in
    let roots = tree_lines S R W config outcome.global d in
    load_lines-values S L lines (write_lines S R W true outcome config viewport) (nothing_loaded S)
      p
    ∙ load_values-append S L (header_lines S R W outcome d viewport) (roots outcome.snapshots)
        (nothing_loaded S)
    ∙ ap (λ r. r >>= load_values S L (roots outcome.snapshots))
        (header_lines-read S L R W outcome d viewport)
    ∙ ap (λ ss. load_values S L (roots ss) (record (nothing_loaded S) { style_defaults = d })) e
    ∙ roots_refused S L R W config outcome.global d i j c cs rest
        (record (nothing_loaded S) { style_defaults = d }) refl
