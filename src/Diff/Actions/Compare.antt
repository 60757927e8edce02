-- ===== src/Diff/Actions/Compare.antt =====
-- `compare_action_value` of crates/sniff-css-diff/src/diff.rs: the leaves at which two actions
-- differ, keyed by their joined paths.
use sniff_css.Prelude.{
  ℕ, zero, suc, String, Bool, false, not, ◌&&◌, Option, none, some, List, [], ◌∷◌, if◌then◌else◌,
  get_elem?, length, max, is_empty_str, decimal,
}
use Prim.Native.String.{◌++◌ as str_append}
use sniff_css.Json.{Value, number, array, object, Map, keys, items_to_list, Serde, depth}
use sniff_css.Json.Collect.{union_keys}
use sniff_css.Diff.Values.{json_before_after}

module _ (S : Serde) where
  open S use {
    Number, F64, as_f64, number_eq, sub, abs, fle, flt, zero as fzero, get, insert, remove,
    value_eq,
  }

  -- the arm for two numbers: whether they count as the same
  unfoldable pub same_number : F64 → Number → Number → Option F64 → Option F64 → Bool
  same_number tol b h (some x) (some y) = flt fzero tol && fle (abs (sub x y)) tol
  same_number tol b h _ _ = false

  abbrev pub join_key : String → String → String
  join_key prefix k = if is_empty_str prefix then k else str_append prefix (str_append "." k)

  abbrev pub index_key : String → ℕ → String
  index_key prefix i = str_append prefix (str_append "[" (str_append (decimal i) "]"))

  -- `changes.insert(prefix, json_before_after(base, head))`
  abbrev pub report :
      String → Option (Value Number) → Option (Value Number) → Map Number → Map Number
  report key base head changes = insert changes key (json_before_after S base head)

  -- the `match` on the two values at one key; `rec` is the recursive call
  abbrev pub compare_at :
      (Value Number → Value Number → String → Map Number → Map Number)
      → Option (Value Number)
      → Option (Value Number)
      → String
      → Map Number
      → Map Number
  compare_at rec (some b) (some h) key changes = rec b h key changes
  compare_at rec none none key changes = changes
  compare_at rec b h key changes = report key b h changes

  -- the loop over the keys of two objects
  unfoldable pub compare_keys :
      (Value Number → Value Number → String → Map Number → Map Number)
      → Map Number
      → Map Number
      → String
      → List String
      → Map Number
      → Map Number
  compare_keys rec bm hm prefix [] changes = changes
  compare_keys rec bm hm prefix (k ∷ ks) changes =
      compare_keys rec bm hm prefix ks
        (compare_at rec (get bm k) (get hm k) (join_key prefix k) changes)

  -- the loop over the indices of two arrays, from `i` on, for `n` rounds
  unfoldable pub compare_indices :
      (Value Number → Value Number → String → Map Number → Map Number)
      → List (Value Number)
      → List (Value Number)
      → String
      → ℕ
      → ℕ
      → Map Number
      → Map Number
  compare_indices rec ba ha prefix zero i changes = changes
  compare_indices rec ba ha prefix (suc n) i changes =
      compare_indices rec ba ha prefix n (suc i)
        (compare_at rec (get_elem? ba i) (get_elem? ha i) (index_key prefix i) changes)

  -- the arm for values of other or different kinds
  abbrev pub compare_whole : Value Number → Value Number → String → Map Number → Map Number
  compare_whole base head prefix changes =
      if not (value_eq base head) then report prefix (some base) (some head) changes else changes

  -- The recursion goes into objects and arrays; fuel above the nesting of `base` is enough.
  unfoldable pub compare_action_fuel :
      ℕ → F64 → Value Number → Value Number → String → Map Number → Map Number
  unfolding compare_keys compare_indices same_number
  compare_action_fuel zero tol base head prefix changes = changes
  compare_action_fuel (suc n) tol (object bm) (object hm) prefix changes =
      compare_keys (compare_action_fuel n tol) bm hm prefix (union_keys (keys bm) (keys hm)) changes
  compare_action_fuel (suc n) tol (array ba) (array ha) prefix changes =
      compare_indices (compare_action_fuel n tol) (items_to_list ba) (items_to_list ha) prefix
        (max (length (items_to_list ba)) (length (items_to_list ha))) 0 changes
  compare_action_fuel (suc n) tol (number b) (number h) prefix changes =
      if number_eq b h
      then changes
      else if not (same_number tol b h (as_f64 b) (as_f64 h))
      then report prefix (some (number b)) (some (number h)) changes
      else changes
  compare_action_fuel (suc n) tol base head prefix changes = compare_whole base head prefix changes

  unfoldable pub compare_action_value :
      Value Number → Value Number → F64 → String → Map Number → Map Number
  compare_action_value base head tol prefix changes =
      compare_action_fuel (suc (depth base)) tol base head prefix changes
