-- ===== src/Tests/Host.antt =====
-- An instance of the interface to serde_json and `f64`: maps are lists of entries searched from the
-- front, and all numbers are whole and not negative, with their distance for `(x - y).abs()`.
mod Equality
pub mod Laws
use Prim.Native.Char.{code}
use sniff_css.Prelude.{
  ℕ, zero, suc, ◌+◌, ◌-◌, ◌*◌, max, String, Bool, true, false, ◌&&◌, Option, none, some, ◌==◌, ltb,
  leb, str_eq, if◌then◌else◌,
}
use sniff_css.Json.{null, number, string, array, object, Items, Value, Map, empty, entry, Serde}
unfoldable pub use Equality.{value_eq, get}

unfoldable pub insert : Map ℕ → String → Value ℕ → Map ℕ
insert empty k v = entry k v empty
insert (entry j w m) k v = if str_eq j k then entry j v m else entry j w (insert m k v)

-- without the entries for a key
unfoldable pub remove : Map ℕ → String → Map ℕ
remove empty k = empty
remove (entry j w m) k = let rest = remove m k in if str_eq j k then rest else entry j w rest

digits : ℕ → String → Option ℕ
digits n String.[] = some n
digits n (String.◌∷◌ c s) =
    let d = code c in
    let rest = digits (n * 10 + (d - b'0')) s in if leb b'0' d && leb d b'9' then rest else none

unfoldable pub parse : String → Option ℕ
unfolding digits
parse s = if str_eq s "" then none else digits 0 s

abbrev item_node : Value ℕ
item_node = object (
    entry "id" (number 2) (
      entry "parent_id" (number 1) (
        entry "tag" (string "LI") (
          entry "selector" (string "li") (
            entry "depth" (number 1)
              (entry "contrast" null (entry "styles" (object empty) empty)))))))

-- A few lines of JSON by name: a tree node, a flat node with a parent, metadata with a
-- default, a page of two nodes with its viewport, a response.
unfoldable pub read_line : String → Option (Value ℕ)
read_line s =
    if str_eq s "tree"
    then some (object (entry "children" (array Items.nil) (entry "selector" (string "a") empty)))
    else if str_eq s "flat"
    then some (object (entry "id" (number 2) (entry "parent_id" (number 1) empty)))
    else if str_eq s "meta"
    then some (object (entry "__meta" (object empty) empty))
    else if str_eq s "page"
    then some (
        object (
          entry "__meta"
            (object (
              entry "viewport"
                (object (entry "width" (number 1280) (entry "height" (number 720) empty))) empty))
            empty))
    else if str_eq s "list"
    then some (
        object (
          entry "id" (number 1) (
            entry "tag" (string "UL") (
              entry "selector" (string "ul") (
                entry "depth" (number 0)
                  (entry "contrast" null (entry "styles" (object empty) empty)))))))
    else if str_eq s "item"
    then some item_node
    else if str_eq s "menu"
    then some (
        object (
          entry "id" (number 1) (
            entry "tag" (string "UL") (
              entry "selector" (string "ul") (
                entry "depth" (number 0) (
                  entry "contrast" null (
                    entry "styles" (object empty)
                      (entry "children" (array (Items.cons item_node Items.nil)) empty))))))))
    else if str_eq s "response"
    then some (object (entry "id" (number 1) (entry "result" (string "ok") empty)))
    else none

abbrev pub host : Serde
host = record {
  Number = ℕ;
  F64 = ℕ;
  as_f64 = some;
  as_u64 = some;
  parse_f64 = parse;
  from_str = read_line;
  from_usize = λ n. n;
  number_eq = ◌==◌;
  sub = λ x y. x - y + (y - x);
  abs = λ x. x;
  fmax = max;
  fle = leb;
  flt = ltb;
  zero = 0;
  get = get;
  insert = insert;
  remove = remove;
  value_eq = value_eq;
}
