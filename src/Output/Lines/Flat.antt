-- ===== src/Output/Lines/Flat.antt =====
-- What `load_str` of crates/sniff-css-diff/src/model.rs reads of the lines of JsonLinesFlat.
use sniff_css.Prelude.{
  ℕ, String, ◌≡◌, refl, ap, ◌∙◌, sym, Bool, false, Option, none, some, List, [], ◌∷◌, ◌++◌,
  append_assoc, append_nil, inl, inr, ◌⊎◌,
}
use sniff_css.Json.{object, Items, Map, empty, Serde, MapLaws}
use sniff_css.Json.Floats.{Floats}
use sniff_css.Model.{node, Forest}
use sniff_css.Model.Assembly.{FlatEntry}
use sniff_css.Model.Load.{
  from_value, Loading, nothing_loaded, add_node, check_mode, load_value, load_lines, DiffResult, ok,
  ◌>>=◌,
}
use sniff_css.Output.Styles.{OutputConfig, GlobalVars}
use sniff_css.Output.Snapshots.{Writer, SnapshotInfo, element, Snapshots, Fields, put_fields}
use sniff_css.Output.Nodes.{node_fields, node_to_json, children_to_json, children_value}
use sniff_css.Output.Nodes.Loaded.{find_field, get-object, loaded_info, from_value-node_to_json}
use sniff_css.Output.Lines.{
  Viewport, SniffOutcome, flatten_all, line_defaults, flat_lines, header_lines, write_lines,
}
use sniff_css.Output.Lines.Read.{
  Printed, load_values, load_lines-values, load_values-append, load_value-object, load_by,
  header_lines-read,
}

module _ (S : Serde) (L : MapLaws S) where
  open S use {Number, get, insert}

  module _ (R : Floats S) (W : Writer S) where
    abbrev pub flat_entry :
        OutputConfig → Option GlobalVars → Map Number → SnapshotInfo S R → FlatEntry Number
    flat_entry config global d i = record {
      id = i.id;
      parent = i.parent_id;
      node_of = node (loaded_info S R L W config global (some d) i) Forest.nil;
    }

    -- what is read of the nodes, each without its children
    abbrev pub entries :
        OutputConfig
        → Option GlobalVars
        → Map Number
        → List (SnapshotInfo S R × Snapshots S R)
        → List (FlatEntry Number)
    entries config global d [] = []
    entries config global d ((i, cs) ∷ nodes) =
        flat_entry config global d i ∷ entries config global d nodes

    abbrev pub flat_mode : List (SnapshotInfo S R × Snapshots S R) → Option Bool → Option Bool
    flat_mode [] m = m
    flat_mode (n ∷ nodes) m = some false

    -- an object without the reserved keys is a node of the flat layout
    fields-read :
        (fs : Fields S R) (s : Loading S)
        → get (put_fields S R fs empty) ≡ find_field S R L fs
        → find_field S R L fs "__meta" ≡ none
        → find_field S R L fs "__ax_tree" ≡ none
        → find_field S R L fs "__actions" ≡ none
        → find_field S R L fs "children" ≡ none
        → load_value S (object (put_fields S R fs empty)) s ≡ (
            check_mode S s.mode false s >>= λ t.
            ok (add_node S false (from_value S (object (put_fields S R fs empty))) t))
    fields-read fs s g a b c e =
        load_value-object S L _ s
        ∙ ap (λ f. load_by S L f (from_value S (object (put_fields S R fs empty))) s) g
        ∙ rw (a, b, c, e) refl

    childless :
        (config : OutputConfig) (vars : Option GlobalVars) (d : Option (Map Number))
        (kids : Items Number)
        → children_value S R W config vars d false kids ≡ none
    childless config vars d Items.nil = refl
    childless config vars d (Items.cons v vs) = refl

    flat_mode-false :
        (nodes : List (SnapshotInfo S R × Snapshots S R))
        → flat_mode nodes (some false) ≡ some false
    flat_mode-false [] = refl
    flat_mode-false (n ∷ nodes) = refl

    joined :
        (nodes : List (SnapshotInfo S R × Snapshots S R)) (s : Loading S) (e : FlatEntry Number)
        (f : List (FlatEntry Number))
        → ◌≡◌ {A = DiffResult (Loading S)}
            (ok (record s { mode = flat_mode nodes (some false); flat = (s.flat ++ e ∷ []) ++ f }))
            (ok (record s { mode = some false; flat = s.flat ++ e ∷ f }))
    joined nodes s e f =
        ap (λ o. ok (record s { mode = o; flat = (s.flat ++ e ∷ []) ++ f })) (flat_mode-false nodes)
        ∙ ap (λ g. ok (record s { mode = some false; flat = g })) (append_assoc s.flat (e ∷ []) f)

    module _ (N : (n : ℕ) → S.as_u64 (S.from_usize n) ≡ some n) (config : OutputConfig)
        (global : Option GlobalVars) (d : Map Number) where
      node-read :
          (i : SnapshotInfo S R) (cs : Snapshots S R) (s : Loading S)
          → load_value S (node_to_json S R W config global (some d) false (element i cs)) s ≡ (
              check_mode S s.mode false s >>= λ t.
              ok (
                add_node S false
                  (node (loaded_info S R L W config global (some d) i) Forest.nil)
                  t))
      unfolding node_to_json
      node-read i cs s =
          let kids = children_to_json S R W config global (some d) cs in
          let fs = node_fields S R W config global (some d) false i kids in
          fields-read fs s (get-object S R L fs refl) refl refl refl
            (childless config global (some d) kids)
          ∙ ap (λ x. check_mode S s.mode false s >>= λ t. ok (add_node S false x t))
              (from_value-node_to_json S R L W config global (some d) N false i cs)

      flat_lines-read :
          (nodes : List (SnapshotInfo S R × Snapshots S R)) (s : Loading S)
          → ((s.mode ≡ none) ⊎ (s.mode ≡ some false))
          → load_values S L (flat_lines S R W config global d nodes) s
            ≡ ok (record s {
              mode = flat_mode nodes s.mode;
              flat = s.flat ++ entries config global d nodes;
            })
      unfolding load_values
      flat_lines-read [] s m = ap (λ f. ok (record s { flat = f })) (sym (append_nil s.flat))
      flat_lines-read ((i, cs) ∷ nodes) s (inl m) =
          let rest = load_values S L (flat_lines S R W config global d nodes) in
          let x = node (loaded_info S R L W config global (some d) i) Forest.nil in
          ap (λ r. r >>= rest) (node-read i cs s)
          ∙ ap (λ o. (check_mode S o false s >>= λ t. ok (add_node S false x t)) >>= rest) m
          ∙ flat_lines-read nodes (add_node S false x (record s { mode = some false })) (inr refl)
          ∙ joined nodes s (flat_entry config global d i) (entries config global d nodes)
      flat_lines-read ((i, cs) ∷ nodes) s (inr m) =
          let rest = load_values S L (flat_lines S R W config global d nodes) in
          let x = node (loaded_info S R L W config global (some d) i) Forest.nil in
          ap (λ r. r >>= rest) (node-read i cs s)
          ∙ ap (λ o. (check_mode S o false s >>= λ t. ok (add_node S false x t)) >>= rest) m
          ∙ flat_lines-read nodes (add_node S false x s) (inr m)
          ∙ ap
              (λ o. ok (record s {
                mode = flat_mode nodes o;
                flat =
                    (s.flat ++ flat_entry config global d i ∷ []) ++ entries config global d nodes;
              }))
              m
          ∙ joined nodes s (flat_entry config global d i) (entries config global d nodes)

    module _ (N : (n : ℕ) → S.as_u64 (S.from_usize n) ≡ some n) where
      write_lines-read :
          (outcome : SniffOutcome S R W) (config : OutputConfig) (viewport : Option Viewport)
          → load_values S L (write_lines S R W false outcome config viewport) (nothing_loaded S)
            ≡ ok (record (nothing_loaded S) {
              style_defaults = line_defaults S R W outcome config;
              mode = flat_mode (flatten_all S R W outcome.snapshots) none;
              flat =
                  entries config outcome.global
                    (line_defaults S R W outcome config)
                    (flatten_all S R W outcome.snapshots);
            })
      unfolding write_lines
      write_lines-read outcome config viewport =
          let d = line_defaults S R W outcome config in
          let nodes = flatten_all S R W outcome.snapshots in
          let flat = flat_lines S R W config outcome.global d nodes in
          load_values-append S L (header_lines S R W outcome d viewport) flat (nothing_loaded S)
          ∙ ap (λ r. r >>= load_values S L flat) (header_lines-read S L R W outcome d viewport)
          ∙ flat_lines-read N config outcome.global d nodes
              (record (nothing_loaded S) { style_defaults = d }) (inl refl)

      -- The loader reads what the writer writes in the format JsonLinesFlat: if each line is the
      -- text of the value that was written, then it has the defaults that were hoisted, and all
      -- nodes of the capture in pre-order, each with its id, its parent and what is read of it.
      pub load_lines-write_lines :
          (lines : List String) (outcome : SniffOutcome S R W) (config : OutputConfig)
          (viewport : Option Viewport)
          → Printed S L lines (write_lines S R W false outcome config viewport)
          → load_lines S lines (nothing_loaded S)
            ≡ ok (record {
              roots = [];
              flat =
                  entries config outcome.global
                    (line_defaults S R W outcome config)
                    (flatten_all S R W outcome.snapshots);
              mode = flat_mode (flatten_all S R W outcome.snapshots) none;
              style_defaults = line_defaults S R W outcome config;
            })
      load_lines-write_lines lines outcome config viewport p =
          load_lines-values S L lines (write_lines S R W false outcome config viewport)
            (nothing_loaded S) p
          ∙ write_lines-read outcome config viewport
