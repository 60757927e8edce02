-- ===== src/Output/Styles.antt =====
-- The styles of an element as JSON, in crates/sniff-engine/src/output.rs.
use Prim.Native.String.{◌++◌ as str_append}
use sniff_css.Prelude.{
  String, Bool, false, ◌&&◌, not, Option, none, some, List, [], ◌∷◌, if◌then◌else◌, contains,
  str_eq, trim,
}
use sniff_css.Json.{string, object, Map, empty, Serde}
use sniff_css.Contrast.Strings.{strip_prefix}
use sniff_css.Output.Tables.{
  slim_props, keep_defaults, noise_values, physical_names, border_prefixes,
}

-- `StyleCategory` of crates/sniff-core/src/properties.rs, and `key`
pub data StyleCategory : Type 0 where
  box_model layout typography visual transform animation interaction accessibility custom :
      StyleCategory
  variables all : StyleCategory

abbrev pub key : StyleCategory → String
key box_model = "box_model"
key layout = "layout"
key typography = "typography"
key visual = "visual"
key transform = "transform"
key animation = "animation"
key interaction = "interaction"
key accessibility = "accessibility"
key custom = "custom"
key variables = "css_variables"
key all = "all"

pub record ComputedProperty : Type 0 where
  pub name : String
  pub value : String

-- `ComputedStyles::groups`
abbrev pub Groups : Type 0
Groups = List (StyleCategory × List ComputedProperty)

abbrev find_pair : List (String × String) → String → Option String
find_pair [] k = none
find_pair ((l, p) ∷ ps) k = let rest = find_pair ps k in if str_eq l k then some p else rest

abbrev find_prefix : List (String × String) → String → Option String
find_prefix [] k = none
find_prefix ((l, p) ∷ ps) k =
    let rest = find_prefix ps k in
    elim (strip_prefix l k) [ some suffix ↦ some (str_append p suffix) | none ↦ rest ]

unfoldable pub physical_equivalent : String → Option String
unfolding strip_prefix
physical_equivalent logical = elim (find_pair physical_names logical) [
  | some phys ↦ some phys
  | none ↦ find_prefix border_prefixes logical
]

abbrev pub is_noise_value : String → Bool
is_noise_value v = contains noise_values v

-- the value of a name in the `BTreeMap` of a group, where the last one stands
abbrev pub value_in : List ComputedProperty → String → Option String
value_in [] k = none
value_in (p ∷ ps) k = elim (value_in ps k) [
  | some v ↦ some v
  | none ↦ if str_eq p.name k then some p.value else none
]

abbrev is_same : Option String → String → Bool
is_same none v = false
is_same (some w) v = str_eq w v

-- the physical property is there with the same value
abbrev pub is_duplicate : List ComputedProperty → ComputedProperty → Bool
is_duplicate props p = elim (physical_equivalent p.name) [
  | none ↦ false
  | some phys ↦ is_same (value_in props phys) p.value
]

abbrev pub is_kept_property : List ComputedProperty → ComputedProperty → Bool
is_kept_property props p =
    if is_duplicate props p
    then false
    else not (not (contains keep_defaults p.name) && is_noise_value (trim p.value))

abbrev pub keep_if : (ComputedProperty → Bool) → List ComputedProperty → List ComputedProperty
keep_if f [] = []
keep_if f (p ∷ ps) = let rest = keep_if f ps in if f p then p ∷ rest else rest

unfoldable pub compact_group : List ComputedProperty → List ComputedProperty
unfolding physical_equivalent trim
compact_group props = keep_if (is_kept_property props) props

-- `GlobalVars`: the value of a name, and whether there are any
pub record GlobalVars : Type 0 where
  pub value_of : String → Option String
  pub entries : List (String × String)

-- `scope_variables`
abbrev pub scope_variables : List ComputedProperty → Option GlobalVars → List ComputedProperty
scope_variables props none = props
scope_variables props (some vars) =
    keep_if (λ p. not (is_same (vars.value_of p.name) p.value)) props

-- the fields of `OutputConfig` that the JSON of a node depends on
pub record OutputConfig : Type 0 where
  pub include_rect : Bool
  pub include_path : Bool
  pub include_metrics : Bool
  pub group_by_category : Bool
  pub compact : Bool
  pub include_visibility : Bool
  pub include_style_hash : Bool

module _ (S : Serde) where
  open S use {Number, get, insert}

  -- `for p in props { m.insert(p.name, Value::String(p.value)) }`
  unfoldable pub put_props : List ComputedProperty → Map Number → Map Number
  put_props [] m = m
  put_props (p ∷ ps) m = put_props ps (insert m p.name (string p.value))

  abbrev pub props_map : List ComputedProperty → Map Number
  props_map props = put_props props empty

  -- one group, unless nothing of it is left
  abbrev put_group : OutputConfig → StyleCategory → List ComputedProperty → Map Number → Map Number
  put_group config category [] m = m
  put_group config category (p ∷ ps) m =
      if config.group_by_category
      then insert m (key category) (object (props_map (p ∷ ps)))
      else put_props (p ∷ ps) m

  abbrev group_props :
      OutputConfig
      → Option GlobalVars
      → StyleCategory
      → List ComputedProperty
      → List ComputedProperty
  group_props config vars variables props =
      if config.compact then scope_variables props vars else props
  group_props config vars category props = if config.compact then compact_group props else props

  unfoldable pub styles_onto : OutputConfig → Option GlobalVars → Groups → Map Number → Map Number
  unfolding put_props compact_group
  styles_onto config vars [] m = m
  styles_onto config vars ((category, props) ∷ gs) m =
      styles_onto config vars gs
        (put_group config category (group_props config vars category props) m)

  unfoldable pub styles_to_json : Groups → OutputConfig → Option GlobalVars → Map Number
  unfolding styles_onto
  styles_to_json groups config vars = styles_onto config vars groups empty

  -- the properties of a group, but for the scoped ones
  abbrev unscoped : OutputConfig → StyleCategory → List ComputedProperty → List ComputedProperty
  unscoped config variables props = []
  unscoped config custom props = []
  unscoped config category props = if config.compact then compact_group props else props

  -- `slim_css`
  unfoldable pub slim_onto : OutputConfig → Groups → Map Number → Map Number
  unfolding put_props compact_group
  slim_onto config [] m = m
  slim_onto config ((category, props) ∷ gs) m =
      slim_onto config gs
        (put_props (keep_if (λ p. contains slim_props p.name) (unscoped config category props)) m)

  unfoldable pub slim_css : Groups → OutputConfig → Map Number
  unfolding slim_onto
  slim_css groups config = slim_onto config groups empty

  -- a group joins what its category has
  abbrev merge_group : Map Number → String → List ComputedProperty → Map Number
  merge_group m k [] = m
  merge_group m k (p ∷ ps) = elim (get m k) [
    | some (object existing) ↦ insert m k (object (put_props (p ∷ ps) existing))
    | _ ↦ insert m k (object (props_map (p ∷ ps)))
  ]

  unfoldable pub compacted_onto : OutputConfig → Groups → Map Number → Map Number
  unfolding put_props compact_group
  compacted_onto config [] m = m
  compacted_onto config ((category, props) ∷ gs) m =
      compacted_onto config gs (merge_group m (key category) (unscoped config category props))

  unfoldable pub compacted_styles : Groups → OutputConfig → Map Number
  unfolding compacted_onto
  compacted_styles groups config = compacted_onto config groups empty
