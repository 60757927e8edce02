-- ===== src/Json/Collect.antt =====
-- The loop that the diff repeats: over the sorted keys of two maps, insert an entry for each key
-- at which a function has a result.
use sniff_css.Prelude.{
  str_eq, refl, eq_refl, String, ◌≡◌, true, ◌||◌, Option, none, some, List, [], ◌∷◌, ◌++◌, arith,
  eq_iff, contains, sort_unstable, dedup, contains-sort_unstable, contains-dedup, contains-append,
  if◌then◌else◌,
}
use sniff_css.Json.Data.{Value, Map, object, empty, entry, is_empty}
use sniff_css.Json.Interface.{Serde, MapLaws}

-- `a.keys().chain(b.keys())`, sorted and without duplicates
unfoldable pub union_keys : List String → List String → List String
union_keys a b = dedup (sort_unstable (a ++ b))

pub contains-union_keys :
    (a b : List String) (k : String) → contains (union_keys a b) k ≡ (contains a k || contains b k)
unfolding union_keys
contains-union_keys a b k = ground (
  arith,
  contains-dedup (sort_unstable (a ++ b)) k,
  contains-sort_unstable (a ++ b) k,
  contains-append a b k,
)

module _ (S : Serde) where
  open S use {Number, get, insert}

  -- one round of the loop: `if let Some(v) = f(k) { m.insert(k, v) }`
  abbrev pub put_some : Map Number → String → Option (Value Number) → Map Number
  put_some m k none = m
  put_some m k (some v) = insert m k v

  unfoldable pub collect : (String → Option (Value Number)) → List String → Map Number → Map Number
  collect f [] m = m
  collect f (k ∷ ks) m = collect f ks (put_some m k (f k))

  -- `if m.is_empty() { None } else { Some(Value::Object(m)) }`
  abbrev pub nonempty_object : Map Number → Option (Value Number)
  nonempty_object m = if is_empty m then none else some (object m)

  -- What `collect` has at a key: what the function gives there, or else what was there before.
  abbrev pub override : Option (Value Number) → Option (Value Number) → Option (Value Number)
  override none o = o
  override (some v) o = some v

  module _ (L : MapLaws S) where
    get-put_some :
        (m : Map Number) (k j : String) (o : Option (Value Number))
        → get (put_some m k o) j ≡ (if str_eq k j then override o (get m j) else get m j)
    get-put_some m k j none = ground arith
    get-put_some m k j (some v) = L.get-insert m k j v

    pub get-collect :
        (f : String → Option (Value Number)) (ks : List String) (m : Map Number) (j : String)
        → get (collect f ks m) j ≡ (if contains ks j then override (f j) (get m j) else get m j)
    unfolding collect
    get-collect f [] m j = refl
    get-collect f (k ∷ ks) m j =
        ground
          (arith, get-collect f ks (put_some m k (f k)) j, get-put_some m k j (f k), eq_iff k j)

    pub get-is_empty : (m : Map Number) → is_empty m ≡ true → (k : String) → get m k ≡ none
    get-is_empty empty e k = L.get-empty k
    get-is_empty (entry j v m) e k = cc

    pub is_empty_of_get : (m : Map Number) → ((k : String) → get m k ≡ none) → is_empty m ≡ true
    is_empty_of_get empty h = refl
    is_empty_of_get (entry j v m) h =
        ground (arith, L.contains-keys (entry j v m) j, h j, eq_refl j)

    -- The loop leaves the map empty exactly when the function has no result at any key.
    pub collect-none :
        (f : String → Option (Value Number)) (ks : List String) (k : String)
        → is_empty (collect f ks empty) ≡ true
        → contains ks k ≡ true
        → f k ≡ none
    collect-none f ks k e c =
        ground
          (arith, get-collect f ks empty k, get-is_empty (collect f ks empty) e k, L.get-empty k)

    pub none-collect :
        (f : String → Option (Value Number)) (ks : List String)
        → ((k : String) → contains ks k ≡ true → f k ≡ none)
        → is_empty (collect f ks empty) ≡ true
    none-collect f ks h =
        is_empty_of_get (collect f ks empty)
          λ k. ground (arith, get-collect f ks empty k, L.get-empty k, h k)
