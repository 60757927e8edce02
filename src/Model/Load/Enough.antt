-- ===== src/Model/Load/Enough.antt =====
-- The fuel of `from_value` is enough: the nesting of the value bounds the depth of `children`.
use sniff_css.Prelude.{ℕ, zero, suc, ◌≤◌, ◌≡◌, refl, sym, ap, min, Option, some, arith}
use sniff_css.Json.{
  Value, array, object, Items, items_to_list, Map, Serde, MapLaws, depth, depth_items, depth_map,
}
use sniff_css.Model.Node.{DiffNode, node, nil, cons}
use sniff_css.Model.Load.{
  at, array_of, values_of, info_of_value, forest_of, from_value_fuel, from_value,
}

module _ (S : Serde) where
  open S use {Number, get}

  -- two readers agree at the values nested less deep than `n`
  abbrev SameBelow :
      ℕ → (Value Number → DiffNode Number) → (Value Number → DiffNode Number) → Type 0
  SameBelow n f g = (v : Value Number) → depth v ≤ n → f v ≡ g v

  forest_of-same :
      (n : ℕ) (f g : Value Number → DiffNode Number) (xs : Items Number)
      → SameBelow n f g
      → depth_items xs ≤ n
      → forest_of S f (items_to_list xs) ≡ forest_of S g (items_to_list xs)
  unfolding forest_of depth
  forest_of-same n f g Items.nil same d = refl
  forest_of-same n f g (Items.cons x xs) same d =
      rw (same x (omega arith)) (ap (cons (g x)) (forest_of-same n f g xs same (omega arith)))

  childless :
      (f : Value Number → DiffNode Number) (v : Value Number)
      → depth v ≤ 0
      → forest_of S f (values_of S (array_of S (at S v "children"))) ≡ nil
  unfolding forest_of depth
  childless f (object m) d = absurd (omega arith)
  childless f v d = refl

  module _ (L : MapLaws S) where
    -- the children of an object's lookup, at values nested less deep than the object
    lookup-same :
        (n : ℕ) (f g : Value Number → DiffNode Number) (o : Option (Value Number))
        → SameBelow n f g
        → ((w : Value Number) → o ≡ some w → depth w ≤ suc n)
        → forest_of S f (values_of S (array_of S o)) ≡ forest_of S g (values_of S (array_of S o))
    unfolding forest_of depth
    lookup-same n f g (some (array xs)) same below =
        forest_of-same n f g xs same (omega (arith, below (array xs) refl))
    lookup-same n f g o same below = refl

    children-same :
        (n : ℕ) (f g : Value Number → DiffNode Number) (v : Value Number)
        → SameBelow n f g
        → depth v ≤ suc n
        → forest_of S f (values_of S (array_of S (at S v "children")))
          ≡ forest_of S g (values_of S (array_of S (at S v "children")))
    unfolding forest_of depth
    children-same n f g (object m) same d =
        lookup-same n f g (get m "children") same
          (λ w e. omega (arith, L.depth-get m "children" w e))
    children-same n f g v same d = refl

    -- Fuel of at least the nesting of the value changes nothing.
    pub from_value_fuel-enough :
        (n m : ℕ) (v : Value Number)
        → depth v ≤ n
        → depth v ≤ m
        → from_value_fuel S n v ≡ from_value_fuel S m v
    unfolding from_value_fuel depth
    from_value_fuel-enough zero zero v p q = refl
    from_value_fuel-enough (suc n) (suc m) v p q = ap (node (info_of_value S v)) (
        children-same (min n m) (from_value_fuel S n) (from_value_fuel S m) v
          (λ w d. from_value_fuel-enough n m w (omega arith) (omega arith)) (omega arith))
    from_value_fuel-enough (suc n) zero v p q = ap (node (info_of_value S v)) (childless _ v q)
    from_value_fuel-enough zero (suc m) v p q =
        ap (node (info_of_value S v)) (sym (childless _ v p))

    -- one level of reading an object
    pub from_value-object :
        (m : Map Number)
        → from_value S (object m)
          ≡ node
              (info_of_value S (object m))
              (forest_of S (from_value S) (values_of S (array_of S (get m "children"))))
    unfolding from_value depth
    from_value-object m = ap (node (info_of_value S (object m))) (
        lookup-same (depth_map m) (from_value_fuel S (depth_map m)) (from_value S)
          (get m "children")
          (λ w d. from_value_fuel-enough (depth_map m) (depth w) w d (omega arith))
          (λ w e. omega (arith, L.depth-get m "children" w e)))
