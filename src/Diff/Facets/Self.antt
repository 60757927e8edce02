-- ===== src/Diff/Facets/Self.antt =====
-- A node compared with itself has no changes.
use sniff_css.Prelude.{String, ◌≡◌, refl, true, false, Option, none, some, arith}
use sniff_css.Json.{
  Value, number, object, Map, as_object, keys, is_empty, Serde, MapLaws, EqLaws, FloatLaws,
  option_eq,
}
use sniff_css.Json.Collect.{union_keys, none-collect, nonempty_object}
use sniff_css.Model.{NodeInfo}
use sniff_css.Diff.Options.{DiffOptions}
use sniff_css.Diff.Values.{
  prop_diff, get_opt, keys_opt, object_of, style_diff, pseudo_diff, object_diff, prop_change,
}
use sniff_css.Diff.Values.Props.{value_equal_refl}
use sniff_css.Diff.Values.Objects.{object_diff-none_iff}
use sniff_css.Diff.Facets.{
  value_f64, rect_of, coords_changed, rect_coords, rect_diff, compute_changes,
}

module _ (S : Serde) (L : MapLaws S) (E : EqLaws S) (A : FloatLaws S) where
  open S use {Number, get, as_f64}

  option_eq_refl : (o : Option (Value Number)) → option_eq S o o ≡ true
  option_eq_refl none = refl
  option_eq_refl (some v) = E.eq_refl v

  prop_diff_self :
      (opts : DiffOptions S) (o : Option (Value Number)) → is_empty (prop_diff S o o opts) ≡ true
  unfolding prop_diff
  prop_diff_self opts none = refl
  prop_diff_self opts (some (object m)) =
      none-collect S L (λ k. prop_change S opts k (get m k) (get m k))
        (union_keys (keys m) (keys m))
        λ k _. ground (arith, value_equal_refl S E A (get m k) opts.tolerance)
  prop_diff_self opts (some v) = ground (arith, value_equal_refl S E A (some v) opts.tolerance)

  style_diff_self : (opts : DiffOptions S) (o : Option (Map Number)) → style_diff S o o opts ≡ none
  unfolding style_diff
  style_diff_self opts o = rw (
      none-collect S L (λ k. nonempty_object S (prop_diff S (get_opt S o k) (get_opt S o k) opts))
        (union_keys (keys_opt S o) (keys_opt S o)) λ k _. rw (prop_diff_self opts (get_opt S o k)))

  pseudo_diff_self :
      (opts : DiffOptions S) (o : Option (Map Number)) → pseudo_diff S o o opts ≡ none
  unfolding pseudo_diff
  pseudo_diff_self opts o = rw (
      none-collect S L
        (λ k. style_diff S (object_of S (get_opt S o k)) (object_of S (get_opt S o k)) opts)
        (union_keys (keys_opt S o) (keys_opt S o))
        λ k _. style_diff_self opts (object_of S (get_opt S o k)))

  -- a coordinate lies at distance 0 from itself
  Still : Option S.F64 → Type 0
  Still o = (x : S.F64) → o ≡ some x → S.abs (S.sub x x) ≡ S.zero

  value_f64-Still : (o : Option (Value Number)) → Still (value_f64 S o)
  unfolding Still
  value_f64-Still (some (number n)) x h = A.abs-sub_self n x h
  value_f64-Still none x h = cc
  value_f64-Still (some v) x h = cc

  coords_changed_self :
      (tol : S.F64) (v : Value Number) (f g p q : Option S.F64)
      → S.fle S.zero tol ≡ true
      → Still f
      → Still g
      → Still p
      → Still q
      → coords_changed S tol v v (rect_of S f g p q) (rect_of S f g p q) ≡ false
  unfolding Still
  coords_changed_self tol v (some x) (some y) (some w) (some z) h i j k l =
      ground (arith, i x refl, j y refl, k w refl, l z refl, A.lt-zero tol h)
  coords_changed_self tol v f g p q h i j k l = ground (arith, E.eq_refl v)

  rect_diff_self :
      (opts : DiffOptions S) (o : Option (Value Number))
      → S.fle S.zero opts.tolerance ≡ true
      → rect_diff S o o opts ≡ none
  unfolding rect_diff rect_coords
  rect_diff_self opts none h = refl
  rect_diff_self opts (some v) h =
      let at : (k : String) → Still (value_f64 S (get_opt S (as_object v) k)) =
        λ k. value_f64-Still (get_opt S (as_object v) k) in
      rw (
        coords_changed_self opts.tolerance v _ _ _ _ h (at "x") (at "y") (at "width") (at "height"))

  object_diff_self : (o : Option (Value Number)) → object_diff S o o ≡ none
  object_diff_self o = (object_diff-none_iff S L E o o).1 (option_eq_refl o)

  -- A node that is compared with itself has no changes, if the tolerance is not negative.
  pub compute_changes_self :
      (opts : DiffOptions S) (n : NodeInfo Number)
      → S.fle S.zero opts.tolerance ≡ true
      → compute_changes S n n opts ≡ none
  unfolding compute_changes
  compute_changes_self opts n h = ground (
    arith,
    style_diff_self opts n.styles,
    pseudo_diff_self opts n.pseudo,
    rect_diff_self opts n.rect h,
    option_eq_refl n.metrics,
    option_eq_refl n.noticeable,
    object_diff_self n.aria,
    object_diff_self n.contrast,
    object_diff_self n.ax,
    object_diff_self n.attributes,
  )
