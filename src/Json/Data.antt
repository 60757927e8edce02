-- ===== src/Json/Data.antt =====
-- The data of serde_json's `Value`. The numbers inside are a parameter. An object holds its
-- entries in iteration order; how they are looked up and changed is the interface's business.
use Prim.Native.Nat.{ℕ, suc, max}
use mathlib.Core.Bool.{Bool}
use mathlib.Core.List.{List, [], ◌∷◌}
use mathlib.Core.Option.{Option, none, some}
use Prim.Native.String.{String}
use text.Mathlib.Text.{◌==◌ as str_eq}
use sniff_css.Prelude.{if◌then◌else◌}

mutual
  pub data Value (N : Type 0) : Type 0 where
    null : Value N
    bool : Bool → Value N
    number : N → Value N
    string : String → Value N
    array : Items N → Value N
    object : Map N → Value N

  pub data Items (N : Type 0) : Type 0 where
    nil : Items N
    cons : Value N → Items N → Items N

  pub data Map (N : Type 0) : Type 0 where
    empty : Map N
    entry : String → Value N → Map N → Map N

-- `Value::as_object`, `as_array`, `as_str`, `as_bool`
abbrev pub as_object : {N : Type 0} → Value N → Option (Map N)
as_object (object m) = some m
as_object _ = none

abbrev pub items_to_list : {N : Type 0} → Items N → List (Value N)
items_to_list nil = []
items_to_list (cons x xs) = x ∷ items_to_list xs

abbrev pub list_to_items : {N : Type 0} → List (Value N) → Items N
list_to_items [] = nil
list_to_items (x ∷ xs) = cons x (list_to_items xs)

abbrev pub as_array : {N : Type 0} → Value N → Option (List (Value N))
as_array (array xs) = some (items_to_list xs)
as_array _ = none

abbrev pub as_str : {N : Type 0} → Value N → Option String
as_str (string s) = some s
as_str _ = none

abbrev pub as_bool : {N : Type 0} → Value N → Option Bool
as_bool (bool b) = some b
as_bool _ = none

-- `Map::keys` and `Map::is_empty`
abbrev pub keys : {N : Type 0} → Map N → List String
keys empty = []
keys (entry k v m) = k ∷ keys m

abbrev pub is_empty : {N : Type 0} → Map N → Bool
is_empty empty = Bool.true
is_empty (entry k v m) = Bool.false

-- the entry that an iteration passes first
abbrev pub find_entry : {N : Type 0} → Map N → String → Option (Value N)
find_entry empty k = none
find_entry (entry j v m) k = if str_eq j k then some v else find_entry m k

-- How deeply a value is nested.
unfoldable mutual
  pub depth : {N : Type 0} → Value N → ℕ
  depth null = 0
  depth (bool b) = 0
  depth (number n) = 0
  depth (string s) = 0
  depth (array xs) = suc (depth_items xs)
  depth (object m) = suc (depth_map m)

  pub depth_items : {N : Type 0} → Items N → ℕ
  depth_items nil = 0
  depth_items (cons x xs) = max (depth x) (depth_items xs)

  pub depth_map : {N : Type 0} → Map N → ℕ
  depth_map empty = 0
  depth_map (entry k v m) = max (depth v) (depth_map m)
