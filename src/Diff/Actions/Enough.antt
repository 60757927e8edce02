-- ===== src/Diff/Actions/Enough.antt =====
-- The fuel of `compare_action_value` is enough: what comes out does not depend on it.
use sniff_css.Prelude.{
  ℕ, zero, suc, ◌≤◌, ◌<◌, String, ◌≡◌, refl, Option, none, some, List, [], ◌∷◌, arith, get_elem?,
  length, max,
}
use sniff_css.Json.{
  Value, number, array, object, Items, nil, cons, Map, keys, items_to_list, Serde, MapLaws, depth,
  depth_items, depth_map,
}
use sniff_css.Json.Collect.{union_keys}
use sniff_css.Diff.Actions.Compare.{
  compare_at, compare_keys, compare_indices, join_key, index_key, compare_action_fuel,
}

depth-get_elem? :
    {N : Type 0} (xs : Items N) (i : ℕ) (v : Value N)
    → get_elem? (items_to_list xs) i ≡ some v
    → depth v ≤ depth_items xs
unfolding depth
depth-get_elem? nil i v h = cc
depth-get_elem? (cons x xs) zero v h = ground arith
depth-get_elem? (cons x xs) (suc i) v h = omega (arith, depth-get_elem? xs i v h)

module _ (S : Serde) where
  open S use {Number, F64, get}

  abbrev Rec : Type 0
  Rec = Value Number → Value Number → String → Map Number → Map Number

  -- two recursive calls agree at the values nested no deeper than `n`
  abbrev SameBelow : ℕ → Rec → Rec → Type 0
  SameBelow n f g =
      (v w : Value Number) (key : String) (c : Map Number) → depth v ≤ n → f v w key c ≡ g v w key c

  compare_at-same :
      (n : ℕ) (f g : Rec) (b h : Option (Value Number)) (key : String) (c : Map Number)
      → SameBelow n f g
      → ((v : Value Number) → b ≡ some v → depth v ≤ n)
      → compare_at S f b h key c ≡ compare_at S g b h key c
  compare_at-same n f g (some b) (some h) key c same below = same b h key c (below b refl)
  compare_at-same n f g (some b) none key c same below = refl
  compare_at-same n f g none (some h) key c same below = refl
  compare_at-same n f g none none key c same below = refl

  compare_indices-same :
      (n : ℕ) (f g : Rec) (ba : Items Number) (ha : List (Value Number)) (prefix : String)
      (rounds i : ℕ) (c : Map Number)
      → SameBelow n f g
      → depth_items ba ≤ n
      → compare_indices S f (items_to_list ba) ha prefix rounds i c
        ≡ compare_indices S g (items_to_list ba) ha prefix rounds i c
  unfolding compare_indices
  compare_indices-same n f g ba ha prefix zero i c same d = refl
  compare_indices-same n f g ba ha prefix (suc rounds) i c same d =
      rw
        (compare_at-same n f g (get_elem? (items_to_list ba) i) (get_elem? ha i)
          (index_key S prefix i) c same (λ v h. omega (arith, depth-get_elem? ba i v h)))
        (compare_indices-same n f g ba ha prefix rounds (suc i) _ same d)

  module _ (L : MapLaws S) where
    compare_keys-same :
        (n : ℕ) (f g : Rec) (bm hm : Map Number) (prefix : String) (ks : List String)
        (c : Map Number)
        → SameBelow n f g
        → depth_map bm ≤ n
        → compare_keys S f bm hm prefix ks c ≡ compare_keys S g bm hm prefix ks c
    unfolding compare_keys
    compare_keys-same n f g bm hm prefix [] c same d = refl
    compare_keys-same n f g bm hm prefix (k ∷ ks) c same d =
        rw
          (compare_at-same n f g (get bm k) (get hm k) (join_key S prefix k) c same
            (λ v h. omega (arith, L.depth-get bm k v h)))
          (compare_keys-same n f g bm hm prefix ks _ same d)

    -- More fuel than the nesting of the base changes nothing.
    pub compare_action_fuel-enough :
        (n m : ℕ) (tol : F64) (b h : Value Number) (prefix : String) (c : Map Number)
        → depth b < n
        → depth b < m
        → compare_action_fuel S n tol b h prefix c ≡ compare_action_fuel S m tol b h prefix c
    unfolding compare_action_fuel depth
    compare_action_fuel-enough zero m tol b h prefix c p q = absurd (omega arith)
    compare_action_fuel-enough (suc n) zero tol b h prefix c p q = absurd (omega arith)
    compare_action_fuel-enough (suc n) (suc m) tol (object bm) (object hm) prefix c p q =
        compare_keys-same (depth_map bm) _ _ bm hm prefix (union_keys (keys bm) (keys hm)) c
          (λ v w key d e. compare_action_fuel-enough n m tol v w key d (omega arith) (omega arith))
          (omega arith)
    compare_action_fuel-enough (suc n) (suc m) tol (array ba) (array ha) prefix c p q =
        compare_indices-same (depth_items ba) _ _ ba (items_to_list ha) prefix
          (max (length (items_to_list ba)) (length (items_to_list ha))) 0 c
          (λ v w key d e. compare_action_fuel-enough n m tol v w key d (omega arith) (omega arith))
          (omega arith)
    compare_action_fuel-enough (suc n) (suc m) tol (number a) (number b) prefix c p q = refl
    compare_action_fuel-enough (suc n) (suc m) tol b h prefix c p q = refl
