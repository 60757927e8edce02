-- ===== src/Output/Lines/Read.antt =====
-- How `load_str` of crates/sniff-css-diff/src/model.rs reads lines one after the other.
use mathlib.Core.Path.{fun_ext}
use sniff_css.Prelude.{
  String, ◌≡◌, refl, ap, ◌∙◌, sym, true, false, ◌||◌, Option, none, some, List, [], ◌∷◌, ◌++◌,
  arith, is_some, is_empty_str, trim, str_eq, if◌then◌else◌,
}
use sniff_css.Json.{Value, object, Map, empty, entry, is_empty, Serde, MapLaws}
use sniff_css.Json.Floats.{Floats}
use sniff_css.Model.{DiffNode}
use sniff_css.Model.Load.{
  nothing_loaded, at, object_of, from_value, Loading, with_defaults, add_node, check_mode,
  load_value, load_line, load_lines, DiffResult, ok, err, ◌>>=◌,
}
use sniff_css.Output.Snapshots.{put_fields, Writer}
use sniff_css.Output.Nodes.Loaded.{get-object}
use sniff_css.Output.Styles.{GlobalVars}
use sniff_css.Output.Lines.{
  Viewport, SniffOutcome, meta_fields, emit_meta_line, header_lines, defaults_value, lone,
  meta_line, emit_lone,
}

module _ (S : Serde) (L : MapLaws S) where
  open S use {Number, get, insert, from_str}

  -- each line is the text of a value
  abbrev pub Printed : List String → List (Value Number) → Type 0
  Printed [] [] = true ≡ true
  Printed (l ∷ ls) (v ∷ vs) =
      (is_empty_str (trim l) ≡ false) × (from_str (trim l) ≡ some v) × Printed ls vs
  Printed _ _ = ⊥

  unfoldable pub load_values : List (Value Number) → Loading S → DiffResult (Loading S)
  load_values [] s = ok s
  load_values (v ∷ vs) s = load_value S v s >>= load_values vs

  pub bind_same :
      (r : DiffResult (Loading S)) (f g : Loading S → DiffResult (Loading S))
      → ((s : Loading S) → f s ≡ g s)
      → (r >>= f) ≡ (r >>= g)
  bind_same (ok s) f g h = h s
  bind_same (err e) f g h = refl

  pub load_lines-values :
      (ls : List String) (vs : List (Value Number)) (s : Loading S)
      → Printed ls vs
      → load_lines S ls s ≡ load_values vs s
  unfolding load_lines load_values
  load_lines-values [] [] s p = refl
  load_lines-values (l ∷ ls) (v ∷ vs) s (a, b, p) =
      ap (λ r. r >>= load_lines S ls) (rw (a, b, load_line) refl)
      ∙ bind_same (load_value S v s) (load_lines S ls) (load_values vs)
          (λ t. load_lines-values ls vs t p)
  load_lines-values [] (v ∷ vs) s p = absurd p
  load_lines-values (l ∷ ls) [] s p = absurd p

  pub bind_assoc :
      (r : DiffResult (Loading S)) (f g : Loading S → DiffResult (Loading S))
      → ((r >>= f) >>= g) ≡ (r >>= λ t. f t >>= g)
  bind_assoc (ok s) f g = refl
  bind_assoc (err e) f g = refl

  pub load_values-append :
      (xs ys : List (Value Number)) (s : Loading S)
      → load_values (xs ++ ys) s ≡ (load_values xs s >>= load_values ys)
  unfolding load_values
  load_values-append [] ys s = refl
  load_values-append (x ∷ xs) ys s =
      bind_same (load_value S x s) (load_values (xs ++ ys))
        (λ t. load_values xs t >>= load_values ys) (load_values-append xs ys)
      ∙ sym (bind_assoc (load_value S x s) (load_values xs) (load_values ys))

  -- a line that is an object is read by its lookups
  abbrev pub load_by :
      (String → Option (Value Number)) → DiffNode Number → Loading S → DiffResult (Loading S)
  load_by f x s =
      if is_some (f "__meta")
      then ok (
          with_defaults S s (elim (f "__meta") [
            | none ↦ none
            | some meta ↦ object_of S (at S meta "style_defaults")
          ]))
      else if is_some (f "__ax_tree") || is_some (f "__actions")
      then ok s
      else check_mode S s.mode (is_some (f "children")) s >>= λ t.
          ok (add_node S (is_some (f "children")) x t)

  pub load_value-object :
      (m : Map Number) (s : Loading S)
      → load_value S (object m) s ≡ load_by (get m) (from_value S (object m)) s
  unfolding load_value
  load_value-object m s = refl

  get-lone :
      (k : String) (v : Value Number)
      → get (insert empty k v) ≡ (λ j. if str_eq k j then some v else none)
  get-lone k v =
      fun_ext
        λ j. L.get-insert empty k j v ∙ ap (λ o. if str_eq k j then some v else o) (L.get-empty j)

  module _ (R : Floats S) (W : Writer S) where
    load_value-lone :
        (k : String) (v : Value Number) (s : Loading S)
        → load_value S (lone S R W k v) s
          ≡ load_by (λ j. if str_eq k j then some v else none) (from_value S (lone S R W k v)) s
    load_value-lone k v s =
        load_value-object _ s ∙ ap (λ f. load_by f (from_value S (lone S R W k v)) s) (get-lone k v)

    -- the lines of the accessibility tree and of the actions are passed over
    pub load_values-ax_tree :
        (o : Option (Value Number)) (s : Loading S)
        → load_values (emit_lone S R W "__ax_tree" o) s ≡ ok s
    unfolding load_values
    load_values-ax_tree none s = refl
    load_values-ax_tree (some v) s =
        ap (λ r. r >>= load_values []) (load_value-lone "__ax_tree" v s)

    pub load_values-actions :
        (o : Option (Value Number)) (s : Loading S)
        → load_values (emit_lone S R W "__actions" o) s ≡ ok s
    unfolding load_values
    load_values-actions none s = refl
    load_values-actions (some v) s =
        ap (λ r. r >>= load_values []) (load_value-lone "__actions" v s)

    defaults_of :
        (d : Map Number)
        → object_of S (defaults_value S R W d) ≡ (if is_empty d then none else some d)
    defaults_of empty = refl
    defaults_of (entry k v d) = refl

    with_defaults-same :
        (d : Map Number) (s : Loading S)
        → s.style_defaults ≡ empty
        → with_defaults S s (if is_empty d then none else some d) ≡ record s { style_defaults = d }
    with_defaults-same empty s h = ap (λ e. record s { style_defaults = e }) h
    with_defaults-same (entry k v d) s h = refl

    pub meta_line-read :
        (meta d : Map Number) (s : Loading S)
        → s.style_defaults ≡ empty
        → get meta "style_defaults" ≡ defaults_value S R W d
        → load_values (meta_line S R W meta) s ≡ ok (record s { style_defaults = d })
    unfolding load_values
    meta_line-read empty empty s h g = ap (λ e. ok (record s { style_defaults = e })) h
    meta_line-read empty (entry k v d) s h g =
        absurd (ground (arith, L.get-empty "style_defaults", g))
    meta_line-read (entry k v m) d s h g =
        ap (λ r. r >>= load_values [])
          (load_value-lone "__meta" (object (entry k v m)) s
            ∙ ap (λ o. ok (with_defaults S s o)) (ap (object_of S) g ∙ defaults_of d)
            ∙ ap ok (with_defaults-same d s h))

    emit_meta_line-read :
        (global : Option GlobalVars) (d : Map Number) (viewport : Option Viewport)
        → load_values (emit_meta_line S R W global d viewport) (nothing_loaded S)
          ≡ ok (record (nothing_loaded S) { style_defaults = d })
    unfolding emit_meta_line
    emit_meta_line-read global d viewport =
        let fs = meta_fields S R W global d viewport in
        meta_line-read (put_fields S R fs empty) d (nothing_loaded S) refl
          (ap (λ f. f "style_defaults") (get-object S R L fs refl))

    -- the lines in front of the nodes bring the defaults
    pub header_lines-read :
        (outcome : SniffOutcome S R W) (d : Map Number) (viewport : Option Viewport)
        → load_values (header_lines S R W outcome d viewport) (nothing_loaded S)
          ≡ ok (record (nothing_loaded S) { style_defaults = d })
    header_lines-read outcome d viewport =
        let s = record (nothing_loaded S) { style_defaults = d } in
        let meta = emit_meta_line S R W outcome.global d viewport in
        let ax = emit_lone S R W "__ax_tree" outcome.ax_tree in
        let acts = emit_lone S R W "__actions" outcome.actions in
        load_values-append meta (ax ++ acts) (nothing_loaded S)
        ∙ ap (λ r. r >>= load_values (ax ++ acts)) (emit_meta_line-read outcome.global d viewport)
        ∙ load_values-append ax acts s
        ∙ ap (λ r. r >>= load_values acts) (load_values-ax_tree outcome.ax_tree s)
        ∙ load_values-actions outcome.actions s
