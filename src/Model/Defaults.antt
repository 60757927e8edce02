-- ===== src/Model/Defaults.antt =====
-- `apply_style_defaults` of crates/sniff-css-diff/src/model.rs: the hoisted styles come back.
pub mod Laws
use sniff_css.Prelude.{ℕ, String, Bool, true, false, Option, none, some, if◌then◌else◌}
use sniff_css.Json.{Value, object, Map, empty, entry, as_object, is_empty, Serde}
use sniff_css.Model.Node.{NodeInfo, DiffNode, node, Forest, nil, cons}

module _ (S : Serde) where
  open S use {Number, get, insert}

  -- `cat_map.entry(prop).or_insert_with(val)` for each entry of the defaults
  unfoldable pub fill_props : Map Number → Map Number → Map Number
  fill_props empty cat = cat
  fill_props (entry prop val m) cat =
      fill_props m (elim (get cat prop) [ none ↦ insert cat prop val | some v ↦ cat ])

  -- `styles.entry(category).or_insert_with(Value::Object(Map::new()))`
  abbrev pub category_of : Map Number → String → Value Number
  category_of styles category = elim (get styles category) [ none ↦ object empty | some v ↦ v ]

  -- one category: its object, filled; anything that is no object stays
  abbrev pub fill_category : Map Number → String → Map Number → Value Number → Map Number
  fill_category styles category defaults (object cat) =
      insert styles category (object (fill_props defaults cat))
  fill_category styles category defaults cat = insert styles category cat

  abbrev pub fill_with : Map Number → String → Option (Map Number) → Map Number
  fill_with styles category none = styles
  fill_with styles category (some defaults) =
      fill_category styles category defaults (category_of styles category)

  -- the loop over the categories of the defaults
  unfoldable pub fill_styles : Map Number → Map Number → Map Number
  unfolding fill_props
  fill_styles empty styles = styles
  fill_styles (entry category v m) styles = fill_styles m (fill_with styles category (as_object v))

  abbrev fill_info : Map Number → NodeInfo Number → Option (Map Number) → NodeInfo Number
  fill_info defaults i none = i
  fill_info defaults i (some styles) = record i { styles = some (fill_styles defaults styles) }

  unfoldable mutual
    pub fill_node : Map Number → DiffNode Number → DiffNode Number
    fill_node defaults (node i f) = node (fill_info defaults i i.styles) (fill_forest defaults f)

    pub fill_forest : Map Number → Forest Number → Forest Number
    fill_forest defaults nil = nil
    fill_forest defaults (cons x f) = cons (fill_node defaults x) (fill_forest defaults f)

  unfoldable pub apply_style_defaults : DiffNode Number → Map Number → DiffNode Number
  unfolding fill_node fill_styles
  apply_style_defaults x defaults = if is_empty defaults then x else fill_node defaults x

  -- `for root in roots { apply_style_defaults(root, &style_defaults) }`
  unfoldable pub apply_all : Forest Number → Map Number → Forest Number
  unfolding apply_style_defaults
  apply_all nil defaults = nil
  apply_all (cons x f) defaults = cons (apply_style_defaults x defaults) (apply_all f defaults)
