-- ===== src/Diff/Actions/Expand.antt =====
-- `expand_action_values` of crates/sniff-css-diff/src/diff.rs: the compact values of an action's
-- elements are keyed by their property names again.
use sniff_css.Prelude.{ℕ, suc, String, Option, none, some, List, [], ◌∷◌, map, get_elem?}
use sniff_css.Json.{
  Value, array, object, Map, empty, as_array, as_str, items_to_list, list_to_items, Serde,
}

module _ (S : Serde) where
  open S use {
    Number, F64, as_f64, number_eq, sub, abs, fle, flt, zero as fzero, get, insert, remove,
    value_eq,
  }

  -- the property name at an index: `names.get(i).copied().flatten()`
  abbrev pub name_at : List (Option String) → ℕ → Option String
  name_at names i = elim (get_elem? names i) [ none ↦ none | some name ↦ name ]

  abbrev pub insert_named : Map Number → Option String → Value Number → Map Number
  insert_named m none v = m
  insert_named m (some name) v = insert m name v

  -- the values of one record, keyed by their property names
  unfoldable pub name_values :
      List (Option String) → ℕ → List (Value Number) → Map Number → Map Number
  name_values names i [] m = m
  name_values names i (v ∷ vs) m = name_values names (suc i) vs (insert_named m (name_at names i) v)

  -- one round of the loop over `css_before_values` and `css_after_values`; the target is the field
  -- without its suffix `_values`
  abbrev expand_with :
      List (Option String)
      → String
      → String
      → Map Number
      → Option (List (Value Number))
      → Map Number
  expand_with names field target out none = out
  expand_with names field target out (some vals) =
      insert (remove out field) target (object (name_values names 0 vals empty))

  abbrev pub array_at : Map Number → String → Option (List (Value Number))
  array_at m k = elim (get m k) [ none ↦ none | some v ↦ as_array v ]

  unfoldable pub expand_object : List (Option String) → Map Number → Map Number
  unfolding name_values
  expand_object names o =
      let before =
        expand_with names "css_before_values" "css_before" o (array_at o "css_before_values") in
      expand_with names "css_after_values" "css_after" before (array_at o "css_after_values")

  unfoldable pub expand_node : List (Option String) → Value Number → Value Number
  unfolding expand_object
  expand_node names (object o) = object (expand_object names o)
  expand_node names node = node

  unfoldable pub expand_list : List (Option String) → Value Number → Value Number
  unfolding expand_node
  expand_list names (array xs) = array (list_to_items (map (expand_node names) (items_to_list xs)))
  expand_list names list = list

  abbrev expand_field : List (Option String) → String → Map Number → Map Number
  expand_field names field out = elim (get out field) [
    | none ↦ out
    | some a ↦ insert out field (expand_list names a)
  ]

  abbrev expand_keys : Value Number → Map Number → Option (List (Value Number)) → Value Number
  expand_keys action obj none = action
  expand_keys action obj (some ks) =
      let names = map as_str ks in
      object (expand_field names "removed" (expand_field names "appeared" (remove obj "css_keys")))

  unfoldable pub expand_action_values : Value Number → Value Number
  unfolding expand_list
  expand_action_values (object obj) = expand_keys (object obj) obj (array_at obj "css_keys")
  expand_action_values action = action
