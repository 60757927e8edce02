-- ===== src/Tests/Host/Laws.antt =====
-- The instance satisfies the laws of the interface.
use mathlib.Core.Path.{fun_ext}
use sniff_css.Prelude.{
  ℕ, zero, suc, ◌≤◌, ◌<◌, max, String, ◌≡◌, refl, ◌∙◌, sym, Bool, true, ◌&&◌, ◌||◌, contains,
  Bool-cases, inl, inr, Option, none, some, List, [], ◌∷◌, ◌++◌, arith, str_eq, eq_iff, eq_refl,
  if◌then◌else◌,
}
use sniff_css.Json.{
  Value, null, string, array, object, Items, nil, cons, Map, empty, entry, find_entry, keys, depth,
  depth_items, depth_map, MapLaws, EntryLaws, IsUnique, EqLaws, FloatLaws, option_eq,
}
use sniff_css.Tests.Host.{host, insert, remove}
use sniff_css.Tests.Host.Equality.{
  get, contains-keys, depth-get, both, all_keys, eq_items, eq_fuel, value_eq, all_keys-intro,
  both-at, eq_fuel-enough,
}

both_refl :
    (f : Value ℕ → Value ℕ → Bool) (o : Option (Value ℕ))
    → ((v : Value ℕ) → o ≡ some v → f v v ≡ true)
    → both f o o ≡ true
both_refl f none h = refl
both_refl f (some v) h = h v refl

eq_items_refl :
    (n : ℕ) (f : Value ℕ → Value ℕ → Bool) (xs : Items ℕ)
    → ((v : Value ℕ) → depth v ≤ n → f v v ≡ true)
    → depth_items xs ≤ n
    → eq_items f xs xs ≡ true
unfolding eq_items depth
eq_items_refl n f nil h d = refl
eq_items_refl n f (cons x xs) h d = rw (h x (omega arith), eq_items_refl n f xs h (omega arith))

eq_fuel_refl : (n : ℕ) (a : Value ℕ) → depth a < n → eq_fuel n a a ≡ true
unfolding eq_fuel depth
eq_fuel_refl zero a p = absurd (omega arith)
eq_fuel_refl (suc n) (object a) p =
    all_keys-intro _ (keys a ++ keys a) λ k.
      both_refl (eq_fuel n) (get a k) λ v h. eq_fuel_refl n v (omega (arith, depth-get a k v h))
eq_fuel_refl (suc n) (array a) p =
    eq_items_refl (depth_items a) (eq_fuel n) a (λ v d. eq_fuel_refl n v (omega arith))
      (omega arith)
eq_fuel_refl (suc n) (string s) p = eq_refl s
eq_fuel_refl (suc n) null p = refl
eq_fuel_refl (suc n) a p = ground arith

all_keys-append :
    (p : String → Bool) (xs ys : List String)
    → all_keys p (xs ++ ys) ≡ (all_keys p xs && all_keys p ys)
unfolding all_keys
all_keys-append p [] ys = refl
all_keys-append p (x ∷ xs) ys = ground (arith, all_keys-append p xs ys)

both_comm :
    (f : Value ℕ → Value ℕ → Bool) (o p : Option (Value ℕ))
    → ((v w : Value ℕ) → f v w ≡ f w v)
    → both f o p ≡ both f p o
both_comm f none none h = refl
both_comm f none (some w) h = refl
both_comm f (some v) none h = refl
both_comm f (some v) (some w) h = h v w

eq_items_comm :
    (f : Value ℕ → Value ℕ → Bool) (xs ys : Items ℕ)
    → ((v w : Value ℕ) → f v w ≡ f w v)
    → eq_items f xs ys ≡ eq_items f ys xs
unfolding eq_items
eq_items_comm f nil nil h = refl
eq_items_comm f nil (cons y ys) h = refl
eq_items_comm f (cons x xs) nil h = refl
eq_items_comm f (cons x xs) (cons y ys) h = rw (h x y, eq_items_comm f xs ys h)

eq_fuel_comm : (n : ℕ) (a b : Value ℕ) → eq_fuel n a b ≡ eq_fuel n b a
unfolding eq_fuel
eq_fuel_comm zero a b = refl
eq_fuel_comm (suc n) (object a) (object b) =
    rw (fun_ext λ k. both_comm (eq_fuel n) (get a k) (get b k) (eq_fuel_comm n)) (
      ground (
        arith,
        all_keys-append (λ k. both (eq_fuel n) (get b k) (get a k)) (keys a) (keys b),
        all_keys-append (λ k. both (eq_fuel n) (get b k) (get a k)) (keys b) (keys a),
      ))
eq_fuel_comm (suc n) (array a) (array b) = eq_items_comm (eq_fuel n) a b (eq_fuel_comm n)
eq_fuel_comm (suc n) (string a) (string b) = ground (arith, eq_iff a b, eq_iff b a)
eq_fuel_comm (suc n) a b = ground arith

value_eq_comm : (a b : Value ℕ) → value_eq a b ≡ value_eq b a
unfolding value_eq
value_eq_comm a b =
    let n = suc (max (depth a) (depth b)) in
    eq_fuel-enough (suc (depth a)) n a b (omega arith) (omega arith)
    ∙ eq_fuel_comm n a b
    ∙ eq_fuel-enough n (suc (depth b)) b a (omega arith) (omega arith)

get-insert :
    (m : Map ℕ) (k j : String) (v : Value ℕ)
    → get (insert m k v) j ≡ (if str_eq k j then some v else get m j)
unfolding get insert
get-insert empty k j v = refl
get-insert (entry i w m) k j v =
    ground (arith, eq_iff k j, eq_iff i k, eq_iff i j, get-insert m k j v)

get-find : (m : Map ℕ) (k : String) → get m k ≡ find_entry m k
unfolding get
get-find empty k = refl
get-find (entry j v m) k = rw (get-find m k)

pub host_maps : MapLaws host
unfolding insert get
host_maps = record {
  get-empty = λ k. refl;
  get-insert = get-insert;
  contains-keys = contains-keys;
  get-find = get-find;
  depth-get = depth-get;
}

option_eq-both :
    (f : Value ℕ → Value ℕ → Bool) (o p : Option (Value ℕ))
    → ((v : Value ℕ) → o ≡ some v → (w : Value ℕ) → f v w ≡ value_eq v w)
    → both f o p ≡ option_eq host o p
option_eq-both f none none h = refl
option_eq-both f none (some w) h = refl
option_eq-both f (some v) none h = refl
option_eq-both f (some v) (some w) h = h v refl w

-- the fuel for an object is enough for the values in it
option_eq-fuel :
    (a b : Map ℕ) (k : String)
    → both (eq_fuel (suc (depth_map a))) (get a k) (get b k) ≡ option_eq host (get a k) (get b k)
unfolding value_eq
option_eq-fuel a b k = option_eq-both (eq_fuel (suc (depth_map a))) (get a k) (get b k) λ v h w.
    eq_fuel-enough (suc (depth_map a)) (suc (depth v)) v w (omega (arith, depth-get a k v h))
      (omega arith)

pub host_equality : EqLaws host
unfolding value_eq eq_fuel depth
host_equality = record {
  eq_refl = λ v. eq_fuel_refl (suc (depth v)) v (omega arith);
  number_refl = λ n. ground arith;
  number_sym = λ a b. ground arith;
  eq_sym = value_eq_comm;
  eq_object = λ a b h k. sym (option_eq-fuel a b k) ∙ both-at (eq_fuel (suc (depth_map a))) a b k h;
  object_eq = λ a b h.
      all_keys-intro (λ k. both (eq_fuel (suc (depth_map a))) (get a k) (get b k))
        (keys a ++ keys b) λ k. option_eq-fuel a b k ∙ h k;
}

pub host_floats : FloatLaws host
host_floats = record {
  abs-sub_self = λ n x h. omega arith;
  abs-sub_comm = λ x y. omega arith;
  zero-le-fmax = λ t. ground arith;
  lt-zero = λ t h. ground arith;
}

get-remove :
    (m : Map ℕ) (k j : String) → get (remove m k) j ≡ (if str_eq k j then none else get m j)
unfolding get remove
get-remove empty k j = ground arith
get-remove (entry i w m) k j = ground (arith, get-remove m k j, eq_iff i k, eq_iff i j, eq_iff k j)

contains-insert :
    (m : Map ℕ) (k : String) (v : Value ℕ) (j : String)
    → contains (keys (insert m k v)) j ≡ (str_eq k j || contains (keys m) j)
unfolding insert
contains-insert empty k v j = refl
contains-insert (entry i w m) k v j =
    ground (arith, contains-insert m k v j, eq_iff i k, eq_iff i j, eq_iff k j)

insert-IsUnique : (m : Map ℕ) (k : String) (v : Value ℕ) → IsUnique m → IsUnique (insert m k v)
unfolding insert
insert-IsUnique empty k v u = (refl, refl)
insert-IsUnique (entry i w m) k v (a, u) = elim (Bool-cases (str_eq i k)) [
  | inl e ↦ rw e (a, u)
  | inr e ↦ rw e (
    ground (arith, contains-insert m k v i, a, e, eq_iff i k, eq_iff k i),
    insert-IsUnique m k v u,
  )
]

pub host_entries : EntryLaws host
host_entries = record { get-remove = get-remove; insert-IsUnique = insert-IsUnique }
