-- ===== src/Json/Interface.antt =====
-- What the code calls of serde_json's numbers, maps and values and of `f64`. The operations are
-- arguments of the definitions that use them; the laws are arguments of the theorems.
use sniff_css.Prelude.{
  ℕ, ◌≤◌, String, ◌≡◌, Bool, true, false, Option, none, some, str_eq, if◌then◌else◌, contains,
  is_some,
}
use sniff_css.Json.Data.{Value, Map, empty, entry, object, keys, find_entry, depth_map, depth}

pub record Serde : Type 1 where
  pub Number : Type 0
  pub F64 : Type 0
  -- `Number::as_f64`, `Number::as_u64`, `str::parse::<f64>`, `Value::from(usize)`
  pub as_f64 : Number → Option F64
  pub as_u64 : Number → Option ℕ
  pub parse_f64 : String → Option F64
  pub from_usize : ℕ → Number
  -- `serde_json::from_str::<Value>`, `none` for an error
  pub from_str : String → Option (Value Number)
  -- `==` of numbers; `-`, `abs`, `max`, `<=`, `<` of `f64`, and 0.0
  pub number_eq : Number → Number → Bool
  pub sub : F64 → F64 → F64
  pub abs : F64 → F64
  pub fmax : F64 → F64 → F64
  pub fle : F64 → F64 → Bool
  pub flt : F64 → F64 → Bool
  pub zero : F64
  -- `Map::get`, `Map::insert`, `Map::remove`, and `==` of values
  pub get : Map Number → String → Option (Value Number)
  pub insert : Map Number → String → Value Number → Map Number
  pub remove : Map Number → String → Map Number
  pub value_eq : Value Number → Value Number → Bool

-- The equality of `Option<&Value>`.
abbrev pub option_eq : (S : Serde) → Option (Value S.Number) → Option (Value S.Number) → Bool
option_eq S none none = true
option_eq S (some a) (some b) = S.value_eq a b
option_eq S _ _ = false

-- What the documentation of serde_json says of maps.
pub record MapLaws (S : Serde) : Type 0 where
  pub get-empty : (k : String) → S.get empty k ≡ none
  pub get-insert :
      (m : Map S.Number) (k j : String) (v : Value S.Number)
      → S.get (S.insert m k v) j ≡ (if str_eq k j then some v else S.get m j)
  -- the keys of a map are those that it has a value for
  pub contains-keys : (m : Map S.Number) (k : String) → contains (keys m) k ≡ is_some (S.get m k)
  -- a lookup finds what the iteration over the entries passes; keys are unique
  pub get-find : (m : Map S.Number) (k : String) → S.get m k ≡ find_entry m k
  -- a value that is found stands in the map
  pub depth-get :
      (m : Map S.Number) (k : String) (v : Value S.Number)
      → S.get m k ≡ some v
      → depth v ≤ depth_map m

-- the keys of the entries differ
abbrev pub IsUnique : {N : Type 0} → Map N → Type 0
IsUnique empty = true ≡ true
IsUnique (entry k v m) = (contains (keys m) k ≡ false) × IsUnique m

-- What the documentation says of maps that change: one entry for a key, and none for a removed one.
pub record EntryLaws (S : Serde) : Type 0 where
  pub get-remove :
      (m : Map S.Number) (k j : String)
      → S.get (S.remove m k) j ≡ (if str_eq k j then none else S.get m j)
  pub insert-IsUnique :
      (m : Map S.Number) (k : String) (v : Value S.Number) → IsUnique m → IsUnique (S.insert m k v)

-- Equality of values is an equivalence, and of objects it is that of their lookups.
pub record EqLaws (S : Serde) : Type 0 where
  pub eq_refl : (v : Value S.Number) → S.value_eq v v ≡ true
  pub number_refl : (n : S.Number) → S.number_eq n n ≡ true
  pub number_sym : (a b : S.Number) → S.number_eq a b ≡ S.number_eq b a
  pub eq_sym : (a b : Value S.Number) → S.value_eq a b ≡ S.value_eq b a
  pub eq_object :
      (a b : Map S.Number)
      → S.value_eq (object a) (object b) ≡ true
      → (k : String) → option_eq S (S.get a k) (S.get b k) ≡ true
  pub object_eq :
      (a b : Map S.Number)
      → ((k : String) → option_eq S (S.get a k) (S.get b k) ≡ true)
      → S.value_eq (object a) (object b) ≡ true

-- What the code relies on of `f64`, at the finite numbers that JSON has.
pub record FloatLaws (S : Serde) : Type 0 where
  -- the distance of a finite number to itself is 0, and distances are symmetric
  pub abs-sub_self : (n : S.Number) (x : S.F64) → S.as_f64 n ≡ some x → S.abs (S.sub x x) ≡ S.zero
  pub abs-sub_comm : (x y : S.F64) → S.abs (S.sub x y) ≡ S.abs (S.sub y x)
  -- `tol.max(0.0)` is at least 0.0, also for a NaN
  pub zero-le-fmax : (t : S.F64) → S.fle S.zero (S.fmax t S.zero) ≡ true
  -- `<` is the negation of the converse `<=` at 0.0 and a number
  pub lt-zero : (t : S.F64) → S.fle S.zero t ≡ true → S.flt t S.zero ≡ false
