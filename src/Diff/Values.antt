-- ===== src/Diff/Values.antt =====
-- The comparison of two nodes, property by property (crates/sniff-css-diff/src/diff.rs).
pub mod Objects
pub mod Props
use Prim.Native.Char.{Char, code}
use sniff_css.Prelude.{
  ℕ, zero, suc, String, Bool, true, false, not, ◌&&◌, ◌||◌, Option, none, some, List, [], ◌==◌, leb,
  str_eq, if◌then◌else◌, contains, is_empty_str, trim,
}
use mathlib.Core.Option
use sniff_css.Json.{
  Value, null, number, string, object, Map, empty, entry, as_object, keys, Serde, depth,
}
use sniff_css.Json.Collect.{union_keys, put_some, collect, nonempty_object}
use sniff_css.Diff.Options.{DiffOptions}

-- the characters of a CSS number: ASCII digits, `.` and `-`
abbrev pub is_number_char : Char → Bool
is_number_char c = let n = code c in (leb b'0' n && leb n b'9') || n == b'.' || n == b'-'

-- `split_at` the first character that belongs to no number
unfoldable pub split_number : String → String × String
split_number String.[] = (String.[], String.[])
split_number (String.◌∷◌ c s) =
    let (num, rest) = split_number s in
    if is_number_char c then (String.◌∷◌ c num, rest) else (String.[], String.◌∷◌ c s)

module _ (S : Serde) where
  open S use {
    Number, F64, as_f64, parse_f64, number_eq, sub, abs, fmax, fle, flt, zero as fzero, get, insert,
    value_eq,
  }

  unfoldable pub strip_number : String → Option (F64 × String)
  unfolding split_number trim
  strip_number s =
      let (num, rest) = split_number (trim s) in
      if is_empty_str num then none else Option.map (λ x. (x, rest)) (parse_f64 num)

  unfoldable pub close : F64 → Option (F64 × String) → Option (F64 × String) → Bool
  close tol (some (x, ru)) (some (y, rv)) = str_eq ru rv && fle (abs (sub x y)) tol
  close tol _ _ = false

  unfoldable pub numeric_close : String → String → F64 → Bool
  unfolding close
  numeric_close a b tol = close tol (strip_number a) (strip_number b)

  -- the arm of `value_equal` for two numbers
  unfoldable pub numbers_equal : F64 → Number → Number → Option F64 → Option F64 → Bool
  numbers_equal tol a b (some x) (some y) = fle (abs (sub x y)) (fmax tol fzero)
  numbers_equal tol a b _ _ = number_eq a b

  unfoldable pub value_equal : Option (Value Number) → Option (Value Number) → F64 → Bool
  unfolding numeric_close numbers_equal
  value_equal none none tol = true
  value_equal (some (string a)) (some (string b)) tol =
      str_eq a b || (flt fzero tol && numeric_close a b tol)
  value_equal (some (number a)) (some (number b)) tol = numbers_equal tol a b (as_f64 a) (as_f64 b)
  value_equal (some a) (some b) tol = value_eq a b
  value_equal _ _ tol = false

  abbrev or_null : Option (Value Number) → Value Number
  or_null none = null
  or_null (some v) = v

  unfoldable pub json_before_after : Option (Value Number) → Option (Value Number) → Value Number
  json_before_after before after =
      object (insert (insert empty "before" (or_null before)) "after" (or_null after))

  -- the body of the loops of `prop_diff`, for one property
  abbrev pub prop_change :
      DiffOptions S → String → Option (Value Number) → Option (Value Number) → Option (Value Number)
  prop_change opts k bv hv =
      if contains opts.ignore_props k
      then none
      else if not (value_equal bv hv opts.tolerance)
      then some (json_before_after bv hv)
      else none

  -- `for (k, v) in map`, which inserts what `f` gives
  unfoldable pub collect_entries :
      (String → Value Number → Option (Value Number)) → Map Number → Map Number → Map Number
  collect_entries f empty acc = acc
  collect_entries f (entry k v m) acc = collect_entries f m (put_some S acc k (f k v))

  -- the property `k`, unless it is ignored
  abbrev pub unless_ignored :
      DiffOptions S → String → Option (Value Number) → Option (Value Number) → Option (Value Number)
  unless_ignored opts k bv hv =
      if contains opts.ignore_props k then none else some (json_before_after bv hv)

  -- the arm of `prop_diff` for two categories that are captured
  unfoldable pub prop_diff_both :
      DiffOptions S
      → Value Number
      → Value Number
      → Option (Map Number)
      → Option (Map Number)
      → Map Number
  unfolding value_equal
  prop_diff_both opts b h (some bm) (some hm) =
      collect S (λ k. prop_change opts k (get bm k) (get hm k)) (union_keys (keys bm) (keys hm))
        empty
  prop_diff_both opts b h _ _ =
      if not (value_equal (some b) (some h) opts.tolerance)
      then insert empty "_value" (json_before_after (some b) (some h))
      else empty

  unfoldable pub prop_diff_base : DiffOptions S → Value Number → Option (Map Number) → Map Number
  prop_diff_base opts b (some bm) =
      collect_entries (λ k v. unless_ignored opts k (some v) none) bm empty
  prop_diff_base opts b none = insert empty "_value" (json_before_after (some b) none)

  unfoldable pub prop_diff_head : DiffOptions S → Value Number → Option (Map Number) → Map Number
  prop_diff_head opts h (some hm) =
      collect_entries (λ k v. unless_ignored opts k none (some v)) hm empty
  prop_diff_head opts h none = insert empty "_value" (json_before_after none (some h))

  unfoldable pub prop_diff :
      Option (Value Number) → Option (Value Number) → DiffOptions S → Map Number
  unfolding prop_diff_both prop_diff_base prop_diff_head
  prop_diff (some b) (some h) opts = prop_diff_both opts b h (as_object b) (as_object h)
  prop_diff (some b) none opts = prop_diff_base opts b (as_object b)
  prop_diff none (some h) opts = prop_diff_head opts h (as_object h)
  prop_diff none none opts = empty

  -- `base.and_then(|m| m.get(key))`, and the keys of a map that may be missing
  abbrev pub get_opt : Option (Map Number) → String → Option (Value Number)
  get_opt none k = none
  get_opt (some m) k = get m k

  abbrev pub keys_opt : Option (Map Number) → List String
  keys_opt none = []
  keys_opt (some m) = keys m

  unfoldable pub style_diff :
      Option (Map Number) → Option (Map Number) → DiffOptions S → Option (Value Number)
  style_diff base head opts = nonempty_object S (
      collect S (λ k. nonempty_object S (prop_diff (get_opt base k) (get_opt head k) opts))
        (union_keys (keys_opt base) (keys_opt head)) empty)

  abbrev pub object_of : Option (Value Number) → Option (Map Number)
  object_of none = none
  object_of (some v) = as_object v

  unfoldable pub pseudo_diff :
      Option (Map Number) → Option (Map Number) → DiffOptions S → Option (Value Number)
  pseudo_diff base head opts = nonempty_object S (
      collect S (λ k. style_diff (object_of (get_opt base k)) (object_of (get_opt head k)) opts)
        (union_keys (keys_opt base) (keys_opt head)) empty)

  -- the arm of `object_diff` for two values that differ; `rec` is the recursive call
  unfoldable pub objects_differ :
      (Option (Value Number) → Option (Value Number) → Option (Value Number))
      → Value Number
      → Value Number
      → Option (Map Number)
      → Option (Map Number)
      → Option (Value Number)
  objects_differ rec a b (some am) (some bm) =
      nonempty_object S
        (collect S (λ k. rec (get am k) (get bm k)) (union_keys (keys am) (keys bm)) empty)
  objects_differ rec a b _ _ = some (json_before_after (some a) (some b))

  -- The recursion goes into objects; fuel above the nesting of `base` is enough.
  unfoldable pub object_diff_fuel :
      ℕ → Option (Value Number) → Option (Value Number) → Option (Value Number)
  unfolding objects_differ
  object_diff_fuel zero base head = none
  object_diff_fuel (suc n) none none = none
  object_diff_fuel (suc n) (some a) (some b) =
      if value_eq a b
      then none
      else objects_differ (object_diff_fuel n) a b (as_object a) (as_object b)
  object_diff_fuel (suc n) (some a) none = some (json_before_after (some a) none)
  object_diff_fuel (suc n) none (some b) = some (json_before_after none (some b))

  abbrev pub depth_opt : Option (Value Number) → ℕ
  depth_opt none = 0
  depth_opt (some v) = depth v

  unfoldable pub object_diff : Option (Value Number) → Option (Value Number) → Option (Value Number)
  object_diff base head = object_diff_fuel (suc (depth_opt base)) base head
