-- ===== src/Output/Nodes/Loaded.antt =====
-- What the loader of crates/sniff-css-diff/src/model.rs reads of the nodes that the writer wrote.
use mathlib.Core.Option
use mathlib.Core.Path.{fun_ext}
use sniff_css.Prelude.{
  ℕ, min, usize_max, String, ◌≡◌, refl, ap, ◌∙◌, Bool, true, false, ◌&&◌, ◌||◌, not, Option, none,
  some, [], ◌∷◌, arith, if◌then◌else◌, str_eq, eq_iff,
}
use sniff_css.Json.{Value, number, string, object, Items, Map, empty, items_to_list, Serde, MapLaws}
use sniff_css.Json.Floats.{Floats}
use sniff_css.Model.{NodeInfo, DiffNode, node, Forest}
use sniff_css.Model.Load.{
  u64_of, str_of, object_of, array_of, values_of, info_of_value, forest_of, from_value,
}
use sniff_css.Model.Load.Enough.{from_value-object}
use sniff_css.Model.Defaults.Laws.{or_else}
use sniff_css.Output.Styles.{OutputConfig, GlobalVars}
use sniff_css.Output.Snapshots.{
  Writer, SnapshotInfo, ElementSnapshot, element, Snapshots, nil, cons, Fields, put_fields,
  noticeable_value, metrics_value, aria_value, ax_value, json_rect,
}
use sniff_css.Output.Nodes.{
  when, attrs_value, pseudo_map, node_styles, node_hash, contrast_or_null, children_value,
  node_fields, node_to_json, children_to_json,
}

module _ (S : Serde) (R : Floats S) (L : MapLaws S) where
  open S use {Number, get, insert, as_u64, from_usize}

  abbrev pub find_field : Fields S R → String → Option (Value Number)
  find_field [] j = none
  find_field ((k, o) ∷ fs) j = if str_eq k j then o else find_field fs j

  abbrev pub has_field : Fields S R → String → Bool
  has_field [] j = false
  has_field ((k, o) ∷ fs) j = str_eq k j || has_field fs j

  abbrev pub differ : Fields S R → Bool
  differ [] = true
  differ ((k, o) ∷ fs) = not (has_field fs k) && differ fs

  find_field-absent :
      (fs : Fields S R) (j : String) → has_field fs j ≡ false → find_field fs j ≡ none
  find_field-absent [] j h = refl
  find_field-absent ((k, o) ∷ fs) j h = ground (arith, find_field-absent fs j, h)

  get-put_fields :
      (fs : Fields S R) (m : Map Number) (j : String)
      → differ fs ≡ true
      → get (put_fields S R fs m) j ≡ or_else (find_field fs j) (get m j)
  unfolding put_fields
  get-put_fields [] m j d = refl
  get-put_fields ((k, none) ∷ fs) m j d =
      get-put_fields fs m j (ground (arith, d))
      ∙ ground (arith, find_field-absent fs j, eq_iff k j, d)
  get-put_fields ((k, some v) ∷ fs) m j d =
      get-put_fields fs (insert m k v) j (ground (arith, d))
      ∙ ground (arith, L.get-insert m k j v, find_field-absent fs j, eq_iff k j, d)

  or_else-none : (o : Option (Value Number)) → or_else o none ≡ o
  or_else-none none = refl
  or_else-none (some v) = refl

  -- the lookups of an object are those of the fields that were put into it
  pub get-object :
      (fs : Fields S R) → differ fs ≡ true → get (put_fields S R fs empty) ≡ find_field fs
  get-object fs d = fun_ext λ j.
      get-put_fields fs empty j d
      ∙ ap (or_else (find_field fs j)) (L.get-empty j)
      ∙ or_else-none (find_field fs j)

  module _ (W : Writer S) (config : OutputConfig) (vars : Option GlobalVars)
      (defaults : Option (Map Number)) where
    -- what is read of a node, from the fields of the snapshot
    abbrev pub loaded_info : SnapshotInfo S R → NodeInfo Number
    loaded_info i = record {
      id = i.id;
      parent_id = i.parent_id;
      selector = i.selector;
      tag = some i.tag;
      path = when config.include_path (some i.path);
      depth = some (min i.depth usize_max);
      rect = when config.include_rect (Option.map (json_rect S R W) i.rect);
      metrics = when config.include_metrics (Option.map (metrics_value S R) i.metrics);
      noticeable = when config.include_visibility (Option.map (noticeable_value S R) i.noticeable);
      hash = when config.include_style_hash (some (node_hash S R W config vars defaults i));
      styles = some (node_styles S R W config vars defaults i);
      pseudo = pseudo_map S R W config vars defaults i.pseudo;
      aria = Option.map (aria_value S R) i.aria;
      contrast = some (contrast_or_null S R W config vars defaults i);
      ax = Option.map (ax_value S R W) i.ax;
      attributes = attrs_value S R W i.attributes;
    }

    unfoldable mutual
      pub loaded : ElementSnapshot S R → DiffNode Number
      loaded (element i cs) = node (loaded_info i) (loaded_all cs)

      pub loaded_all : Snapshots S R → Forest Number
      loaded_all nil = Forest.nil
      loaded_all (cons c cs) = Forest.cons (loaded c) (loaded_all cs)

    -- `info_of_value` of an object reads its lookups only
    abbrev info_from : (String → Option (Value Number)) → NodeInfo Number
    info_from f = record {
      id = elim (u64_of S (f "id")) [ none ↦ 0 | some n ↦ n ];
      parent_id = u64_of S (f "parent_id");
      selector = elim (str_of S (f "selector")) [ none ↦ "" | some s ↦ s ];
      tag = str_of S (f "tag");
      path = str_of S (f "path");
      depth = Option.map (λ d. min d usize_max) (u64_of S (f "depth"));
      rect = f "rect";
      metrics = f "metrics";
      noticeable = f "is_user_noticeable";
      hash = str_of S (f "computed_style_hash");
      styles = object_of S (f "styles");
      pseudo = object_of S (f "pseudo");
      aria = f "aria";
      contrast = f "contrast";
      ax = f "ax";
      attributes = f "attrs";
    }

    info_of_value-object : (m : Map Number) → info_of_value S (object m) ≡ info_from (get m)
    unfolding info_of_value
    info_of_value-object m = refl

    str_of-when : (b : Bool) (s : String) → str_of S (when b (some (string s))) ≡ when b (some s)
    str_of-when true s = refl
    str_of-when false s = refl

    object_of-map : (o : Option (Map Number)) → object_of S (Option.map object o) ≡ o
    object_of-map none = refl
    object_of-map (some m) = refl

    module _ (N : (n : ℕ) → as_u64 (from_usize n) ≡ some n) where
      u64_of-map : (o : Option ℕ) → u64_of S (Option.map (λ p. number (from_usize p)) o) ≡ o
      u64_of-map none = refl
      u64_of-map (some p) = N p

      info-loaded :
          (as_tree : Bool) (i : SnapshotInfo S R) (kids : Items Number)
          → info_from (find_field (node_fields S R W config vars defaults as_tree i kids))
            ≡ loaded_info i
      info-loaded as_tree i kids =
          rw
            (
              N i.id,
              N i.depth,
              u64_of-map i.parent_id,
              str_of-when config.include_path i.path,
              str_of-when config.include_style_hash (node_hash S R W config vars defaults i),
              object_of-map (pseudo_map S R W config vars defaults i.pseudo),
            )
            refl

      read_object :
          (as_tree : Bool) (i : SnapshotInfo S R) (kids : Items Number)
          → from_value S (
              object (put_fields S R (node_fields S R W config vars defaults as_tree i kids) empty))
            ≡ node (loaded_info i) (
                forest_of S (from_value S) (
                  values_of S
                    (array_of S (children_value S R W config vars defaults as_tree kids))))
      read_object as_tree i kids =
          let fs = node_fields S R W config vars defaults as_tree i kids in
          let m = put_fields S R fs empty in
          from_value-object S L m
          ∙ ap
              (λ x.
                node x (forest_of S (from_value S) (values_of S (array_of S (get m "children")))))
              (info_of_value-object m
                ∙ ap info_from (get-object fs refl)
                ∙ info-loaded as_tree i kids)
          ∙ ap
              (λ f.
                node (loaded_info i)
                  (forest_of S (from_value S) (values_of S (array_of S (f "children")))))
              (get-object fs refl)

      nested :
          (kids : Items Number)
          → values_of S (array_of S (children_value S R W config vars defaults true kids))
            ≡ items_to_list kids
      nested Items.nil = refl
      nested (Items.cons v vs) = refl

      flat :
          (kids : Items Number)
          → values_of S (array_of S (children_value S R W config vars defaults false kids)) ≡ []
      flat Items.nil = refl
      flat (Items.cons v vs) = refl

      mutual
        unfolding node_to_json forest_of loaded

        read_node :
            (s : ElementSnapshot S R)
            → from_value S (node_to_json S R W config vars defaults true s) ≡ loaded s
        read_node (element i cs) =
            read_object true i (children_to_json S R W config vars defaults cs)
            ∙ ap (λ vs. node (loaded_info i) (forest_of S (from_value S) vs))
                (nested (children_to_json S R W config vars defaults cs))
            ∙ ap (node (loaded_info i)) (read_nodes cs)

        read_nodes :
            (cs : Snapshots S R)
            → forest_of S
                (from_value S)
                (items_to_list (children_to_json S R W config vars defaults cs))
              ≡ loaded_all cs
        read_nodes nil = refl
        read_nodes (cons c cs) =
            ap
              (λ x. Forest.cons x (
                forest_of S (from_value S)
                  (items_to_list (children_to_json S R W config vars defaults cs))))
              (read_node c)
            ∙ ap (Forest.cons (loaded c)) (read_nodes cs)

      -- The loader reads back the nodes that the writer wrote: in a tree the node with all its
      -- descendants, on a line of its own the node alone, with the fields of the snapshot that the
      -- configuration includes, and with the styles without those that were hoisted.
      pub from_value-node_to_json :
          (as_tree : Bool) (i : SnapshotInfo S R) (cs : Snapshots S R)
          → from_value S (node_to_json S R W config vars defaults as_tree (element i cs))
            ≡ node (loaded_info i) (if as_tree then loaded_all cs else Forest.nil)
      unfolding node_to_json forest_of loaded
      from_value-node_to_json true i cs = read_node (element i cs)
      from_value-node_to_json false i cs =
          read_object false i (children_to_json S R W config vars defaults cs)
          ∙ ap (λ vs. node (loaded_info i) (forest_of S (from_value S) vs))
              (flat (children_to_json S R W config vars defaults cs))
