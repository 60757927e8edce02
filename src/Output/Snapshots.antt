-- ===== src/Output/Snapshots.antt =====
-- `ElementSnapshot` of crates/sniff-core/src/types.rs, its facets, and their JSON as serde writes it.
use sniff_css.Prelude.{ℕ, ℤ, String, Bool, Option, none, some, List, [], ◌∷◌}
use sniff_css.Json.{Value, null, bool, string, object, Map, empty, Serde}
use sniff_css.Json.Floats.{Floats}
use sniff_css.Contrast.Derive.{TriState, passed, failed, unmeasured, ContrastInfo}
use sniff_css.Output.Styles.{Groups}

pub data AccessibilityGrade : Type 0 where
  ungraded aa aaa : AccessibilityGrade

pub record Noticeability : Type 0 where
  pub display_visible : Bool
  pub accessibility_grade : AccessibilityGrade

pub record ElementMetrics : Type 0 where
  pub z_index : String
  pub stacking_context : Bool

pub record AriaInfo : Type 0 where
  pub role : Option String
  pub name : Option String
  pub focusable : Bool
  pub aria_hidden : Option String
  pub aria_expanded : Option String
  pub aria_checked : Option String
  pub aria_controls : Option String
  pub aria_labelledby : Option String
  pub aria_describedby : Option String
  pub lang : Option String
  pub alt : Option String
  pub title : Option String
  pub html_hidden : Bool
  pub disabled : Bool
  pub has_text : Bool

pub record AxInfo : Type 0 where
  pub role : Option String
  pub name : Option String
  pub value : Option String
  pub focusable : Option Bool
  pub ignored : Bool
  pub level : Option ℤ
  pub expanded : Option Bool
  pub checked : Option String
  pub disabled : Option Bool

pub record PseudoStyles : Type 0 where
  pub name : String
  pub styles : Groups

-- what the writer calls of other crates: `Value::from` of an `f64` and of an `i64`, and the checksum
-- of styles and pseudo-elements in hexadecimal digits
pub record Writer (S : Serde) : Type 0 where
  pub from_f64 : S.F64 → Value S.Number
  pub from_i64 : ℤ → Value S.Number
  pub style_hash : Value S.Number → Option (Value S.Number) → String

module _ (S : Serde) (R : Floats S) where
  open S use {Number, F64, insert}

  pub record Rect : Type 0 where
    pub x : F64
    pub y : F64
    pub width : F64
    pub height : F64

  -- an element but for its children
  pub record SnapshotInfo : Type 0 where
    pub id : ℕ
    pub parent_id : Option ℕ
    pub tag : String
    pub selector : String
    pub path : String
    pub depth : ℕ
    pub rect : Option Rect
    pub metrics : Option ElementMetrics
    pub noticeable : Option Noticeability
    pub aria : Option AriaInfo
    pub effective_background : Option String
    pub contrast : Option (ContrastInfo S R)
    pub ax : Option AxInfo
    pub attributes : Option (List (String × String))
    pub styles : Groups
    pub pseudo : List PseudoStyles

  mutual
    pub data ElementSnapshot : Type 0 where
      element : SnapshotInfo → Snapshots → ElementSnapshot

    pub data Snapshots : Type 0 where
      nil : Snapshots
      cons : ElementSnapshot → Snapshots → Snapshots

  -- the entries of an object, in the order in which they are inserted
  abbrev pub Fields : Type 0
  Fields = List (String × Option (Value Number))

  unfoldable pub put_fields : Fields → Map Number → Map Number
  put_fields [] m = m
  put_fields ((k, none) ∷ fs) m = put_fields fs m
  put_fields ((k, some v) ∷ fs) m = put_fields fs (insert m k v)

  -- serde's JSON of an optional value
  abbrev optional : {A : Type 0} → (A → Value Number) → Option A → Option (Value Number)
  optional f none = some null
  optional f (some a) = some (f a)

  abbrev pub grade_value : AccessibilityGrade → Value Number
  grade_value ungraded = string "NONE"
  grade_value aa = string "AA"
  grade_value aaa = string "AAA"

  unfoldable pub noticeable_value : Noticeability → Value Number
  unfolding put_fields
  noticeable_value n = object (
      put_fields
        (("display_visible", some (bool n.display_visible))
          ∷ ("accessibility_grade", some (grade_value n.accessibility_grade))
          ∷ [])
        empty)

  unfoldable pub metrics_value : ElementMetrics → Value Number
  unfolding put_fields
  metrics_value m = object (
      put_fields
        (("z_index", some (string m.z_index))
          ∷ ("stacking_context", some (bool m.stacking_context))
          ∷ [])
        empty)

  unfoldable pub aria_value : AriaInfo → Value Number
  unfolding put_fields
  aria_value a = object (
      put_fields
        (("role", optional string a.role)
          ∷ ("name", optional string a.name)
          ∷ ("focusable", some (bool a.focusable))
          ∷ ("aria_hidden", optional string a.aria_hidden)
          ∷ ("aria_expanded", optional string a.aria_expanded)
          ∷ ("aria_checked", optional string a.aria_checked)
          ∷ ("aria_controls", optional string a.aria_controls)
          ∷ ("aria_labelledby", optional string a.aria_labelledby)
          ∷ ("aria_describedby", optional string a.aria_describedby)
          ∷ ("lang", optional string a.lang)
          ∷ ("alt", optional string a.alt)
          ∷ ("title", optional string a.title)
          ∷ ("html_hidden", some (bool a.html_hidden))
          ∷ ("disabled", some (bool a.disabled))
          ∷ ("has_text", some (bool a.has_text))
          ∷ [])
        empty)

  abbrev pub tri_value : TriState → Value Number
  tri_value passed = string "pass"
  tri_value failed = string "fail"
  tri_value unmeasured = string "unknown"

  module _ (W : Writer S) where
    open W use {from_f64, from_i64}

    unfoldable pub ax_value : AxInfo → Value Number
    unfolding put_fields
    ax_value a = object (
        put_fields
          (("role", optional string a.role)
            ∷ ("name", optional string a.name)
            ∷ ("value", optional string a.value)
            ∷ ("focusable", optional bool a.focusable)
            ∷ ("ignored", some (bool a.ignored))
            ∷ ("level", optional from_i64 a.level)
            ∷ ("expanded", optional bool a.expanded)
            ∷ ("checked", optional string a.checked)
            ∷ ("disabled", optional bool a.disabled)
            ∷ [])
          empty)

    unfoldable pub contrast_value : ContrastInfo S R → Value Number
    unfolding put_fields
    contrast_value c = object (
        put_fields
          (("ratio", some (from_f64 c.ratio))
            ∷ ("foreground", some (string c.foreground))
            ∷ ("background", some (string c.background))
            ∷ ("large", some (bool c.large))
            ∷ ("aa", some (tri_value c.aa))
            ∷ ("aaa", some (tri_value c.aaa))
            ∷ ("unknown_reason", optional string c.unknown_reason)
            ∷ [])
          empty)

    unfoldable pub json_rect : Rect → Value Number
    unfolding put_fields
    json_rect r = object (
        put_fields
          (("x", some (from_f64 r.x))
            ∷ ("y", some (from_f64 r.y))
            ∷ ("width", some (from_f64 r.width))
            ∷ ("height", some (from_f64 r.height))
            ∷ [])
          empty)
