-- ===== src/Output/Hoist.antt =====
-- The hoisting of constant styles in crates/sniff-engine/src/output.rs.
pub mod Removed
pub mod Common
pub mod Restored
use sniff_css.Prelude.{
  String, Bool, true, false, ◌&&◌, Option, none, some, List, [], ◌∷◌, if◌then◌else◌,
}
use sniff_css.Json.{Value, object, Map, empty, entry, as_object, is_empty, Serde, option_eq}

module _ (S : Serde) where
  open S use {Number, get, insert, remove}

  -- `m.get(cat).and_then(|c| c.get(prop))`
  abbrev pub object_at : Option (Value Number) → Option (Map Number)
  object_at none = none
  object_at (some v) = as_object v

  abbrev pub get_in : Option (Map Number) → String → Option (Value Number)
  get_in none prop = none
  get_in (some m) prop = get m prop

  abbrev pub style_at : Map Number → String → String → Option (Value Number)
  style_at m cat prop = get_in (object_at (get m cat)) prop

  -- every node has the value
  unfoldable pub all_have : List (Map Number) → String → String → Value Number → Bool
  all_have [] cat prop v = true
  all_have (m ∷ ms) cat prop v =
      option_eq S (style_at m cat prop) (some v) && all_have ms cat prop v

  -- the filter over one category
  unfoldable pub common_props : List (Map Number) → String → Map Number → Map Number → Map Number
  unfolding all_have
  common_props per_node cat empty out = out
  common_props per_node cat (entry prop v m) out =
      common_props per_node cat m (if all_have per_node cat prop v then insert out prop v else out)

  abbrev put_nonempty : Map Number → String → Map Number → Map Number
  put_nonempty out cat m = if is_empty m then out else insert out cat (object m)

  abbrev common_category :
      List (Map Number) → String → Option (Map Number) → Map Number → Map Number
  common_category per_node cat none out = out
  common_category per_node cat (some props) out =
      put_nonempty out cat (common_props per_node cat props empty)

  unfoldable pub common_categories : List (Map Number) → Map Number → Map Number → Map Number
  unfolding common_props
  common_categories per_node empty out = out
  common_categories per_node (entry cat props m) out =
      common_categories per_node m (common_category per_node cat (as_object props) out)

  unfoldable pub category_defaults : List (Map Number) → Map Number
  unfolding common_categories
  category_defaults [] = empty
  category_defaults (first ∷ rest) = common_categories (first ∷ rest) first empty

  -- one category of `dedup_styles`: the properties that have the default's value go
  unfoldable pub drop_props : Map Number → Map Number → Map Number
  drop_props cat empty = cat
  drop_props cat (entry prop dval m) =
      drop_props (if option_eq S (get cat prop) (some dval) then remove cat prop else cat) m

  abbrev pub drop_category :
      Map Number → String → Option (Map Number) → Option (Map Number) → Map Number
  drop_category value cat (some obj) (some dmap) = insert value cat (object (drop_props obj dmap))
  drop_category value cat _ _ = value

  unfoldable pub dedup_styles : Map Number → Map Number → Map Number
  unfolding drop_props
  dedup_styles value empty = value
  dedup_styles value (entry cat d m) =
      dedup_styles (drop_category value cat (object_at (get value cat)) (as_object d)) m

  -- `dedup_flat` is the loop over one category
  abbrev pub dedup_flat : Map Number → Map Number → Map Number
  dedup_flat value defaults = drop_props value defaults

  -- every node has the value of a property, in the flat summary
  abbrev all_have_flat : List (Map Number) → String → Value Number → Bool
  all_have_flat [] prop v = true
  all_have_flat (m ∷ ms) prop v = option_eq S (get m prop) (some v) && all_have_flat ms prop v

  unfoldable pub common_flat : List (Map Number) → Map Number → Map Number → Map Number
  common_flat per_node empty out = out
  common_flat per_node (entry prop v m) out =
      common_flat per_node m (if all_have_flat per_node prop v then insert out prop v else out)

  unfoldable pub flat_defaults : List (Map Number) → Map Number
  unfolding common_flat
  flat_defaults [] = empty
  flat_defaults (first ∷ rest) = common_flat (first ∷ rest) first empty
