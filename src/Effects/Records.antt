-- ===== src/Effects/Records.antt =====
-- The records of the elements in crates/sniff-engine/src/effects.rs, read from a capture.
pub mod Keyed
use Prim.Native.String.{compare}
use text.Mathlib.Text.{is_le}
use sniff_css.Prelude.{
  ℕ, String, Bool, true, false, Option, none, some, List, [], ◌∷◌, if◌then◌else◌, str_eq,
  is_empty_str, get_elem?, is_some,
}
use sniff_css.Json.{Value, null, number, string, array, object, items_to_list, Map, empty, Serde}
use sniff_css.Json.Floats.{Floats}
use sniff_css.Effects.Geometry.{Plane, Quad, f64_or_zero}

pub record ElementRec (S : Serde) : Type 0 where
  pub key : String
  pub tag : String
  pub rect : Quad S
  pub visible : Bool
  pub signature : Map S.Number
  pub text : Option String
  pub aria : Option (Value S.Number)

-- the map that `keyed` makes, in ascending order of its keys
abbrev pub Recs : Serde → Type 0
Recs S = List (ElementRec S)

module _ (S : Serde) where
  unfoldable pub find_rec : Recs S → String → Option (ElementRec S)
  find_rec [] k = none
  find_rec (r ∷ rs) k = if str_eq r.key k then some r else find_rec rs k

  abbrev pub replace_rec : ElementRec S → Recs S → Recs S
  replace_rec r [] = []
  replace_rec r (q ∷ qs) =
      let rest = replace_rec r qs in if str_eq q.key r.key then r ∷ qs else q ∷ rest

  abbrev pub place_rec : ElementRec S → Recs S → Recs S
  place_rec r [] = r ∷ []
  place_rec r (q ∷ qs) =
      let rest = place_rec r qs in if is_le (compare r.key q.key) then r ∷ q ∷ qs else q ∷ rest

  -- `m.insert(rec.key.clone(), rec)`
  unfoldable pub insert_rec : ElementRec S → Recs S → Recs S
  unfolding find_rec
  insert_rec r m = if is_some (find_rec m r.key) then replace_rec r m else place_rec r m

  unfoldable pub keyed_onto : List (ElementRec S) → Recs S → Recs S
  unfolding insert_rec
  keyed_onto [] m = m
  keyed_onto (r ∷ rs) m = keyed_onto rs (if is_empty_str r.key then m else insert_rec r m)

  unfoldable pub keyed : List (ElementRec S) → Recs S
  unfolding keyed_onto
  keyed rs = keyed_onto rs []

  abbrev pub is_root : ElementRec S → Bool
  is_root r = if str_eq r.tag "HTML" then true else str_eq r.tag "BODY"

  -- `v.get(k)` of a value
  abbrev pub value_at : Value S.Number → String → Option (Value S.Number)
  value_at (object m) k = S.get m k
  value_at _ k = none

  abbrev pub str_or_empty : Option (Value S.Number) → String
  str_or_empty (some (string s)) = s
  str_or_empty _ = ""

  abbrev pub bool_or_false : Option (Value S.Number) → Bool
  bool_or_false (some (Value.bool b)) = b
  bool_or_false _ = false

  abbrev pub object_or_empty : Option (Value S.Number) → Map S.Number
  object_or_empty (some (object m)) = m
  object_or_empty _ = empty

  abbrev pub str_of : Option (Value S.Number) → Option String
  str_of (some (string s)) = some s
  str_of _ = none

  abbrev pub unless_null : Option (Value S.Number) → Option (Value S.Number)
  unless_null (some null) = none
  unless_null o = o

  abbrev pub list_or_empty : Option (Value S.Number) → List (Value S.Number)
  list_or_empty (some (array vs)) = items_to_list vs
  list_or_empty _ = []

  module _ (R : Floats S) (P : Plane S) where
    abbrev pub coordinate : List (Value S.Number) → ℕ → S.F64
    coordinate vs i = f64_or_zero S R P (get_elem? vs i)

    abbrev pub parse_rect : Option (Value S.Number) → Quad S
    parse_rect o =
        let vs = list_or_empty o in
        (coordinate vs 0, coordinate vs 1, coordinate vs 2, coordinate vs 3)

    abbrev pub parse_element : Value S.Number → ElementRec S
    parse_element el = record {
      key = str_or_empty (value_at el "k");
      tag = str_or_empty (value_at el "t");
      rect = parse_rect (value_at el "r");
      visible = bool_or_false (value_at el "v");
      signature = object_or_empty (value_at el "s");
      text = str_of (value_at el "x");
      aria = unless_null (value_at el "a");
    }

    unfoldable pub parse_all : List (Value S.Number) → List (ElementRec S)
    parse_all [] = []
    parse_all (v ∷ vs) = parse_element v ∷ parse_all vs

    unfoldable pub parse_elements : Value S.Number → List (ElementRec S)
    unfolding parse_all
    parse_elements v = parse_all (list_or_empty (value_at v "elements"))

    abbrev pub parse_viewport : Value S.Number → S.F64 × S.F64
    parse_viewport v =
        let vs = list_or_empty (value_at v "viewport") in (coordinate vs 0, coordinate vs 1)
