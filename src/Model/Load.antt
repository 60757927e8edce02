-- ===== src/Model/Load.antt =====
-- `from_value`, `load_str` and the readers of `__meta` and `__actions` of
-- crates/sniff-css-diff/src/model.rs.
pub mod Layout
pub mod Enough
use mathlib.Core.Option
use sniff_css.Prelude.{
  ℕ, zero, suc, min, String, Bool, true, false, not, ◌||◌, Option, none, some, List, [], ◌∷◌, ◌++◌,
  if◌then◌else◌, is_some, is_empty_str, usize_max, trim, lines,
}
use sniff_css.Json.{Value, number, string, Map, empty, as_object, as_array, as_str, Serde, depth}
use sniff_css.Model.Node.{NodeInfo, DiffNode, node, Forest, nil, cons, info, of_list}
use sniff_css.Model.Assembly.{FlatEntry, build_forest}
use sniff_css.Model.Defaults.{apply_all}

-- `DiffError`, without the I/O errors of reading a file
pub data DiffError : Type 0 where
  json mixed_layout : DiffError

pub data DiffResult {ℓ} (A : Type ℓ) : Type ℓ where
  ok : A → DiffResult A
  err : DiffError → DiffResult A

infixl 5 ◌>>=◌
abbrev pub ◌>>=◌ {ℓ κ} :
    {A : Type ℓ} {B : Type κ} → DiffResult A → (A → DiffResult B) → DiffResult B
ok a >>= f = f a
err e >>= f = err e

module _ (S : Serde) where
  open S use {Number, F64, as_u64, as_f64, get, from_str}

  -- `Value::get`, and the accessors behind it
  abbrev pub at : Value Number → String → Option (Value Number)
  at v k = elim (as_object v) [ none ↦ none | some m ↦ get m k ]

  abbrev pub u64_of : Option (Value Number) → Option ℕ
  u64_of (some (number n)) = as_u64 n
  u64_of _ = none

  abbrev pub str_of : Option (Value Number) → Option String
  str_of none = none
  str_of (some v) = as_str v

  abbrev pub array_of : Option (Value Number) → Option (List (Value Number))
  array_of none = none
  array_of (some v) = as_array v

  abbrev pub object_of : Option (Value Number) → Option (Map Number)
  object_of none = none
  object_of (some v) = as_object v

  -- `from_value` but for the children
  unfoldable pub info_of_value : Value Number → NodeInfo Number
  info_of_value v = record {
    id = elim (u64_of (at v "id")) [ none ↦ 0 | some n ↦ n ];
    parent_id = u64_of (at v "parent_id");
    selector = elim (str_of (at v "selector")) [ none ↦ "" | some s ↦ s ];
    tag = str_of (at v "tag");
    path = str_of (at v "path");
    depth = Option.map (λ d. min d usize_max) (u64_of (at v "depth"));
    rect = at v "rect";
    metrics = at v "metrics";
    noticeable = at v "is_user_noticeable";
    hash = str_of (at v "computed_style_hash");
    styles = object_of (at v "styles");
    pseudo = object_of (at v "pseudo");
    aria = at v "aria";
    contrast = at v "contrast";
    ax = at v "ax";
    attributes = at v "attrs";
  }

  unfoldable pub forest_of : (Value Number → DiffNode Number) → List (Value Number) → Forest Number
  forest_of f [] = nil
  forest_of f (v ∷ vs) = cons (f v) (forest_of f vs)

  abbrev pub values_of : Option (List (Value Number)) → List (Value Number)
  values_of none = []
  values_of (some vs) = vs

  -- The recursion goes into `children`; fuel of the nesting of the value is enough.
  unfoldable pub from_value_fuel : ℕ → Value Number → DiffNode Number
  unfolding info_of_value forest_of
  from_value_fuel zero v = node (info_of_value v) nil
  from_value_fuel (suc n) v =
      node (info_of_value v)
        (forest_of (from_value_fuel n) (values_of (array_of (at v "children"))))

  unfoldable pub from_value : Value Number → DiffNode Number
  unfolding from_value_fuel
  from_value v = from_value_fuel (depth v) v

  -- the variables of the loop of `load_str`
  pub record Loading : Type 0 where
    pub roots : List (DiffNode Number)
    pub flat : List (FlatEntry Number)
    pub mode : Option Bool
    pub style_defaults : Map Number

  abbrev pub nothing_loaded : Loading
  nothing_loaded = record { roots = []; flat = []; mode = none; style_defaults = empty }

  abbrev pub with_defaults : Loading → Option (Map Number) → Loading
  with_defaults s none = s
  with_defaults s (some d) = record s { style_defaults = d }

  -- the node of a line in the layout that it has
  abbrev pub add_node : Bool → DiffNode Number → Loading → Loading
  add_node true x s = record s { roots = s.roots ++ x ∷ [] }
  add_node false x s = record s {
    flat = s.flat ++ record { id = (info x).id; parent = (info x).parent_id; node_of = x } ∷ [];
  }

  abbrev same_layout : Bool → Bool → Bool
  same_layout true b = b
  same_layout false b = not b

  -- `match mode`: the first node line sets the layout, a later one has to agree
  abbrev pub check_mode : Option Bool → Bool → Loading → DiffResult Loading
  check_mode none tree s = ok (record s { mode = some tree })
  check_mode (some m) tree s = if same_layout m tree then ok s else err mixed_layout

  unfoldable pub load_value : Value Number → Loading → DiffResult Loading
  load_value v s =
      if is_some (at v "__meta")
      then ok (
          with_defaults s (elim (at v "__meta") [
            | none ↦ none
            | some meta ↦ object_of (at meta "style_defaults")
          ]))
      else if is_some (at v "__ax_tree") || is_some (at v "__actions")
      then ok s
      else (let tree = is_some (at v "children") in
          check_mode s.mode tree s >>= λ s'. ok (add_node tree (from_value v) s'))

  abbrev load_parsed : Option (Value Number) → Loading → DiffResult Loading
  load_parsed none s = err json
  load_parsed (some v) s = load_value v s

  unfoldable pub load_line : String → Loading → DiffResult Loading
  unfolding load_value trim
  load_line line s = if is_empty_str (trim line) then ok s else load_parsed (from_str (trim line)) s

  unfoldable pub load_lines : List String → Loading → DiffResult Loading
  unfolding load_line
  load_lines [] s = ok s
  load_lines (l ∷ ls) s = load_line l s >>= load_lines ls

  -- the end of `load_str`: `mode == Some(false)` is the flat layout
  unfoldable pub finish : Option Bool → Loading → Forest Number
  finish (some false) s = apply_all S (build_forest s.flat) s.style_defaults
  finish mode s = apply_all S (of_list s.roots) s.style_defaults

  unfoldable pub load_str : String → DiffResult (Forest Number)
  unfolding load_lines finish
  load_str content = load_lines (lines content) nothing_loaded >>= λ s. ok (finish s.mode s)
