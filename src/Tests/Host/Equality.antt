-- ===== src/Tests/Host/Equality.antt =====
-- Equality of values in which the order of an object's entries does not matter.
use mathlib.Core.Path.{fun_ext}
use sniff_css.Prelude.{
  ℕ, zero, suc, ◌≤◌, ◌<◌, String, ◌≡◌, refl, Bool, true, false, ◌&&◌, Option, none, some, List, [],
  ◌∷◌, ◌++◌, arith, ◌==◌, str_eq, eq_iff, if◌then◌else◌, contains, contains-append, is_some,
}
use sniff_css.Json.{
  Value, null, bool, number, string, array, object, Items, nil, cons, Map, empty, entry, keys,
  depth, depth_items, depth_map,
}

unfoldable pub get : Map ℕ → String → Option (Value ℕ)
get empty k = none
get (entry j v m) k = if str_eq j k then some v else get m k

pub contains-keys : (m : Map ℕ) (k : String) → contains (keys m) k ≡ is_some (get m k)
unfolding get
contains-keys empty k = refl
contains-keys (entry j v m) k = ground (arith, contains-keys m k)

pub depth-get : (m : Map ℕ) (k : String) (v : Value ℕ) → get m k ≡ some v → depth v ≤ depth_map m
unfolding get depth
depth-get empty k v h = cc
depth-get (entry j w m) k v h = ground (arith, depth-get m k v)

-- both missing, or both there and related by `f`
abbrev pub both : (Value ℕ → Value ℕ → Bool) → Option (Value ℕ) → Option (Value ℕ) → Bool
both f none none = true
both f (some a) (some b) = f a b
both f _ _ = false

unfoldable pub all_keys : (String → Bool) → List String → Bool
all_keys p [] = true
all_keys p (k ∷ ks) = p k && all_keys p ks

unfoldable pub eq_items : (Value ℕ → Value ℕ → Bool) → Items ℕ → Items ℕ → Bool
eq_items f nil nil = true
eq_items f (cons a xs) (cons b ys) = f a b && eq_items f xs ys
eq_items f _ _ = false

unfoldable pub bool_eq : Bool → Bool → Bool
bool_eq true b = b
bool_eq false true = false
bool_eq false false = true

unfoldable pub eq_fuel : ℕ → Value ℕ → Value ℕ → Bool
unfolding all_keys eq_items bool_eq
eq_fuel zero a b = false
eq_fuel (suc n) (object a) (object b) =
    all_keys (λ k. both (eq_fuel n) (get a k) (get b k)) (keys a ++ keys b)
eq_fuel (suc n) (array a) (array b) = eq_items (eq_fuel n) a b
eq_fuel (suc n) null null = true
eq_fuel (suc n) (bool a) (bool b) = bool_eq a b
eq_fuel (suc n) (number a) (number b) = a == b
eq_fuel (suc n) (string a) (string b) = str_eq a b
eq_fuel (suc n) _ _ = false

unfoldable pub value_eq : Value ℕ → Value ℕ → Bool
unfolding eq_fuel
value_eq a b = eq_fuel (suc (depth a)) a b

pub all_keys-intro :
    (p : String → Bool) (ks : List String) → ((k : String) → p k ≡ true) → all_keys p ks ≡ true
unfolding all_keys
all_keys-intro p [] h = refl
all_keys-intro p (k ∷ ks) h = rw (h k) (all_keys-intro p ks h)

all_keys-elim :
    (p : String → Bool) (ks : List String) (k : String)
    → all_keys p ks ≡ true
    → contains ks k ≡ true
    → p k ≡ true
unfolding all_keys
all_keys-elim p [] k h c = cc
all_keys-elim p (j ∷ ks) k h c = ground (arith, eq_iff j k, all_keys-elim p ks k)

pub both-at :
    (f : Value ℕ → Value ℕ → Bool) (a b : Map ℕ) (k : String)
    → all_keys (λ k. both f (get a k) (get b k)) (keys a ++ keys b) ≡ true
    → both f (get a k) (get b k) ≡ true
both-at f a b k h = ground (
  arith,
  all_keys-elim (λ k. both f (get a k) (get b k)) (keys a ++ keys b) k h,
  contains-append (keys a) (keys b) k,
  contains-keys a k,
  contains-keys b k,
)

both-same :
    (f g : Value ℕ → Value ℕ → Bool) (o p : Option (Value ℕ))
    → ((v : Value ℕ) → o ≡ some v → (w : Value ℕ) → f v w ≡ g v w)
    → both f o p ≡ both g o p
both-same f g none none h = refl
both-same f g none (some w) h = refl
both-same f g (some v) none h = refl
both-same f g (some v) (some w) h = h v refl w

eq_items-same :
    (n : ℕ) (f g : Value ℕ → Value ℕ → Bool) (xs ys : Items ℕ)
    → ((v w : Value ℕ) → depth v ≤ n → f v w ≡ g v w)
    → depth_items xs ≤ n
    → eq_items f xs ys ≡ eq_items g xs ys
unfolding eq_items depth
eq_items-same n f g nil nil h d = refl
eq_items-same n f g nil (cons y ys) h d = refl
eq_items-same n f g (cons x xs) nil h d = refl
eq_items-same n f g (cons x xs) (cons y ys) h d =
    rw (h x y (omega arith), eq_items-same n f g xs ys h (omega arith))

pub eq_fuel-enough :
    (n m : ℕ) (a b : Value ℕ) → depth a < n → depth a < m → eq_fuel n a b ≡ eq_fuel m a b
unfolding eq_fuel depth
eq_fuel-enough zero m a b p q = absurd (omega arith)
eq_fuel-enough (suc n) zero a b p q = absurd (omega arith)
eq_fuel-enough (suc n) (suc m) (object a) (object b) p q =
    rw
      (fun_ext λ k. both-same (eq_fuel n) (eq_fuel m) (get a k) (get b k) λ v h w.
        eq_fuel-enough n m v w (omega (arith, depth-get a k v h))
          (omega (arith, depth-get a k v h)))
      refl
eq_fuel-enough (suc n) (suc m) (array a) (array b) p q =
    eq_items-same (depth_items a) (eq_fuel n) (eq_fuel m) a b
      (λ v w d. eq_fuel-enough n m v w (omega arith) (omega arith)) (omega arith)
eq_fuel-enough (suc n) (suc m) null b p q = refl
eq_fuel-enough (suc n) (suc m) a b p q = ground arith
