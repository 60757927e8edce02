-- ===== src/Check/Uniformity.antt =====
-- crates/sniff-css-check/src/uniformity.rs: the odd one out among instances of one selector.
pub mod Deviates
pub mod Justified
pub mod Uniform
pub mod Norms
use sniff_css.Prelude.{
  ℕ, String, Bool, true, false, not, ◌&&◌, Option, none, some, List, [], ◌∷◌, ◌++◌, map, length,
  ltb, ◌==◌, if◌then◌else◌, is_some, str_eq, contains, sort_unstable,
}
use sniff_css.Json.{Value, Map, Serde}
use sniff_css.Json.Floats.{Floats}
use sniff_css.Model.{DiffNode, info}
use sniff_css.Diff.Values.{strip_number}
use Norms.{Props, find_prop, flat_props, group_norm}

pub record Deviation (S : Serde) : Type 0 where
  pub property : String
  pub norm : Option String
  pub value : String
  pub magnitude : Option S.F64

pub record Outlier (S : Serde) : Type 0 where
  pub selector : String
  pub deviations : List (Deviation S)

pub record UniformityReport (S : Serde) : Type 0 where
  pub instances : ℕ
  pub outliers : List (Outlier S)

-- a node with its properties
abbrev pub Instance : Serde → Type 0
Instance S = DiffNode S.Number × Props

abbrev pub option_str_eq : Option String → Option String → Bool
option_str_eq none none = true
option_str_eq (some a) (some b) = str_eq a b
option_str_eq _ _ = false

-- `filter_map(|v| *v)`
abbrev pub present_values : List (Option String) → List String
present_values [] = []
present_values (none ∷ os) = present_values os
present_values (some v ∷ os) = v ∷ present_values os

-- each key once, in the order in which the instances have them
abbrev pub new_keys : Props → List String → List String
new_keys [] ks = ks
new_keys ((k, v) ∷ ps) ks = new_keys ps (if contains ks k then ks else ks ++ k ∷ [])

module _ (S : Serde) (R : Floats S) (midpoint : S.F64 → S.F64 → S.F64) (tolerance : S.F64) where
  open S use {F64, Number, sub, abs, fle}

  abbrev pub all_keys : List (Instance S) → List String → List String
  all_keys [] ks = ks
  all_keys ((x, ps) ∷ xs) ks = all_keys xs (new_keys ps ks)

  unfoldable pub push_deviation :
      List (Outlier S) → DiffNode Number → String → String → String → Option F64 → List (Outlier S)
  push_deviation [] x key norm value magnitude =
      record {
        selector = (info x).selector;
        deviations =
            record { property = key; norm = some norm; value = value; magnitude = magnitude } ∷ [];
      }
      ∷ []
  push_deviation (o ∷ os) x key norm value magnitude =
      let rest = push_deviation os x key norm value magnitude in
      if str_eq o.selector (info x).selector
      then record {
        selector = o.selector;
        deviations =
            o.deviations
            ++ record { property = key; norm = some norm; value = value; magnitude = magnitude }
              ∷ [];
      }
        ∷ os
      else o ∷ rest

  -- the loop over the instances when some do not have the property
  unfoldable pub push_missing :
      String → String → List (Instance S) → List (Outlier S) → List (Outlier S)
  unfolding push_deviation
  push_missing key norm [] os = os
  push_missing key norm ((x, ps) ∷ xs) os =
      push_missing key norm xs
        (if is_some (find_prop ps key) then os else push_deviation os x key norm "(missing)" none)

  abbrev pub unit_of : Option (F64 × String) → Option String
  unit_of none = none
  unit_of (some (n, u)) = some u

  abbrev pub distance : Option (F64 × String) → Option (F64 × String) → Option F64
  distance (some (nn, nu)) (some (mn, mu)) = if str_eq nu mu then some (abs (sub mn nn)) else none
  distance _ _ = none

  abbrev pub at_most : Option F64 → Bool
  at_most none = false
  at_most (some m) = fle m tolerance

  unfoldable pub push_mine :
      String → String → Bool → DiffNode Number → Option String → List (Outlier S) → List (Outlier S)
  unfolding push_deviation strip_number
  push_mine key norm numeric x none os = os
  push_mine key norm numeric x (some mine) os =
      let magnitude =
        if numeric then distance (strip_number S norm) (strip_number S mine) else none in
      let is_within =
        numeric
        && (at_most magnitude
            && option_str_eq (unit_of (strip_number S norm)) (unit_of (strip_number S mine))) in
      if not is_within && not (str_eq mine norm)
      then push_deviation os x key norm mine magnitude
      else os

  unfoldable pub push_group :
      String → String → Bool → List (Instance S) → List (Outlier S) → List (Outlier S)
  unfolding push_mine
  push_group key norm numeric [] os = os
  push_group key norm numeric ((x, ps) ∷ xs) os =
      push_group key norm numeric xs (push_mine key norm numeric x (find_prop ps key) os)

  unfoldable pub check_group :
      String → List (Instance S) → Option (String × Bool) → List (Outlier S) → List (Outlier S)
  unfolding push_group
  check_group key xs none os = os
  check_group key xs (some (norm, numeric)) os = push_group key norm numeric xs os

  -- what `present` has first is the norm if some instances do not have the property
  unfoldable pub check_present :
      String → List (Instance S) → ℕ → List String → List (Outlier S) → List (Outlier S)
  unfolding check_group push_missing group_norm
  check_present key xs n [] os = os
  check_present key xs n (norm ∷ present) os =
      if n == length (norm ∷ present)
      then check_group key xs (group_norm S R midpoint (norm ∷ present)) os
      else push_missing key norm xs os

  abbrev pub per_instance : String → List (Instance S) → List (Option String)
  per_instance key [] = []
  per_instance key ((x, ps) ∷ xs) = find_prop ps key ∷ per_instance key xs

  unfoldable pub check_keys : List String → List (Instance S) → List (Outlier S) → List (Outlier S)
  unfolding check_present
  check_keys [] xs os = os
  check_keys (key ∷ ks) xs os =
      let values = per_instance key xs in
      check_keys ks xs (check_present key xs (length values) (present_values values) os)

  abbrev pub instances_of : List (DiffNode Number) → List (Instance S)
  instances_of [] = []
  instances_of (x ∷ xs) = (x, flat_props S R midpoint x) ∷ instances_of xs

  unfoldable pub check_uniformity : List (DiffNode Number) → UniformityReport S
  unfolding check_keys flat_props sort_unstable
  check_uniformity nodes =
      let xs = instances_of nodes in
      if ltb (length xs) 2 then record { instances = length xs; outliers = [] } else record {
        instances = length xs;
        outliers = check_keys (sort_unstable (all_keys xs [])) xs [];
      }
