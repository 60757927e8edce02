-- ===== src/Check/Uniformity/Norms.antt =====
-- The properties of an instance in crates/sniff-css-check/src/uniformity.rs, and the norm of a group.
pub mod Mode
pub mod Median
pub mod Group
use Prim.Native.String.{compare, ◌++◌ as str_append}
use text.Mathlib.Text.{is_le}
use sniff_css.Prelude.{
  ℕ, ◌-◌, ◌/◌, ◌%◌, String, Bool, true, false, ◌&&◌, ◌||◌, Option, none, some, List, [], ◌∷◌, ◌++◌,
  length, leb, ◌==◌, if◌then◌else◌, str_eq, saturating_add, get_elem?,
}
use sniff_css.Json.{Value, number, string, object, Map, empty, entry, Serde}
use sniff_css.Json.Floats.{Floats}
use sniff_css.Model.{DiffNode, info}
use sniff_css.Check.Nodes.{display_visible, field}
use sniff_css.Diff.Values.{strip_number}

abbrev pub Props : Type 0
Props = List (String × Option String)

-- the value of the first entry with a key
abbrev pub find_prop : Props → String → Option String
find_prop [] key = none
find_prop ((k, v) ∷ ps) key = if str_eq k key then v else find_prop ps key

abbrev option_le : Option String → Option String → Bool
option_le none o = true
option_le (some a) none = false
option_le (some a) (some b) = is_le (compare a b)

abbrev prop_le : (String × Option String) → (String × Option String) → Bool
prop_le (a, o) (b, p) = if str_eq a b then option_le o p else is_le (compare a b)

unfoldable pub insert_prop : (String × Option String) → Props → Props
insert_prop p [] = p ∷ []
insert_prop p (q ∷ qs) = let rest = insert_prop p qs in if prop_le p q then p ∷ q ∷ qs else q ∷ rest

-- `out.sort_unstable()`
unfoldable pub sort_props : Props → Props
unfolding insert_prop
sort_props [] = []
sort_props (p ∷ ps) = insert_prop p (sort_props ps)

abbrev pub has_key : List (String × ℕ) → String → Bool
has_key [] k = false
has_key ((j, n) ∷ m) k = str_eq j k || has_key m k

-- one more for a key that is there
abbrev pub add_one : String → List (String × ℕ) → List (String × ℕ)
add_one k [] = []
add_one k ((j, n) ∷ m) = (j, if str_eq j k then saturating_add n 1 else n) ∷ add_one k m

-- a new key, in ascending order
abbrev pub place_one : String → List (String × ℕ) → List (String × ℕ)
place_one k [] = (k, 1) ∷ []
place_one k ((j, n) ∷ m) =
    let rest = place_one k m in if is_le (compare k j) then (k, 1) ∷ (j, n) ∷ m else (j, n) ∷ rest

-- the entry API of the map `counts`, whose keys differ
unfoldable pub bump : String → List (String × ℕ) → List (String × ℕ)
bump k m = if has_key m k then add_one k m else place_one k m

abbrev pub counted : List String → List (String × ℕ) → List (String × ℕ)
counted [] m = m
counted (v ∷ vs) m = counted vs (bump v m)

-- `max_by_key`, which takes the last of several
abbrev pub last_max : String × ℕ → List (String × ℕ) → String
last_max (k, n) [] = k
last_max (k, n) ((j, c) ∷ m) = if leb n c then last_max (j, c) m else last_max (k, n) m

abbrev pub mode_of : String → List (String × ℕ) → String
mode_of first [] = first
mode_of first (e ∷ m) = last_max e m

abbrev pub all_equal : String → List String → Bool
all_equal first [] = true
all_equal first (v ∷ vs) = str_eq v first && all_equal first vs

module _ (S : Serde) (R : Floats S) (midpoint : S.F64 → S.F64 → S.F64) where
  open S use {F64, Number, fle, as_f64, get}

  abbrev str_value : Value Number → Option String
  str_value (string s) = some s
  str_value _ = none

  abbrev pub group_of : String → Map Number → Props
  group_of cat empty = []
  group_of cat (entry prop v m) =
      (str_append cat (str_append "." prop), str_value v) ∷ group_of cat m

  abbrev pub styles_of : Map Number → Props
  styles_of empty = []
  styles_of (entry cat (object m) rest) = group_of cat m ++ styles_of rest
  styles_of (entry cat v rest) = styles_of rest

  abbrev side : String → Option (Value Number) → Props
  side name (some (number n)) = elim (as_f64 n) [
    | none ↦ []
    | some x ↦ (name, some (R.show x)) ∷ []
  ]
  side name _ = []

  abbrev pub footprint : Option (Value Number) → Props
  footprint (some (object m)) =
      side "rect.width" (get m "width") ++ side "rect.height" (get m "height")
  footprint _ = []

  abbrev pub styles_props : Option (Map Number) → Props
  styles_props none = []
  styles_props (some m) = styles_of m

  abbrev flag : Option Bool → Props
  flag none = []
  flag (some b) = ("is_user_noticeable.display_visible", some (if b then "true" else "false")) ∷ []

  abbrev grade : Option String → Props
  grade none = []
  grade (some g) = ("is_user_noticeable.accessibility_grade", some g) ∷ []

  abbrev pub accessibility_grade : DiffNode Number → Option String
  accessibility_grade x = elim (field S (info x).noticeable "accessibility_grade") [
    | none ↦ none
    | some v ↦ str_value v
  ]

  unfoldable pub flat_props : DiffNode Number → Props
  unfolding sort_props
  flat_props x = sort_props (
      styles_props (info x).styles
      ++ footprint (info x).rect
      ++ flag (display_visible S x)
      ++ grade (accessibility_grade x))

  -- `filter_map(|v| strip_number(v))`
  abbrev pub add_number : Option (F64 × String) → List (F64 × String) → List (F64 × String)
  add_number none ns = ns
  add_number (some n) ns = n ∷ ns

  unfoldable pub numbers_of : List String → List (F64 × String)
  unfolding strip_number
  numbers_of [] = []
  numbers_of (v ∷ vs) = add_number (strip_number S v) (numbers_of vs)

  abbrev pub all_unit : String → List (F64 × String) → Bool
  all_unit unit [] = true
  all_unit unit ((n, u) ∷ ns) = str_eq u unit && all_unit unit ns

  unfoldable pub insert_number : F64 → List F64 → List F64
  insert_number x [] = x ∷ []
  insert_number x (y ∷ ys) =
      let rest = insert_number x ys in if fle x y then x ∷ y ∷ ys else y ∷ rest

  unfoldable pub sorted_numbers : List (F64 × String) → List F64
  unfolding insert_number
  sorted_numbers [] = []
  sorted_numbers ((n, u) ∷ ns) = insert_number n (sorted_numbers ns)

  abbrev pub number_at : List F64 → ℕ → F64
  number_at xs i = elim (get_elem? xs i) [ none ↦ S.zero | some x ↦ x ]

  abbrev pub median : List F64 → F64
  median xs =
      let mid = length xs / 2 in
      if length xs % 2 == 0
      then midpoint (number_at xs (mid - 1)) (number_at xs mid)
      else number_at xs mid

  -- the median if all values are numbers with the same unit, and otherwise the mode
  unfoldable pub norm_of : String → List String → List (F64 × String) → String × Bool
  unfolding sorted_numbers bump
  norm_of first vs [] = (mode_of first (counted vs []), false)
  norm_of first vs ((n, unit) ∷ ns) =
      if length ((n, unit) ∷ ns) == length vs && all_unit unit ((n, unit) ∷ ns)
      then (str_append (R.show (median (sorted_numbers ((n, unit) ∷ ns)))) unit, true)
      else (mode_of first (counted vs []), false)

  unfoldable pub group_norm : List String → Option (String × Bool)
  unfolding norm_of numbers_of
  group_norm [] = none
  group_norm (v ∷ vs) =
      if all_equal v (v ∷ vs) then none else some (norm_of v (v ∷ vs) (numbers_of (v ∷ vs)))
