-- ===== src/Diff/Values/Objects.antt =====
-- `object_diff`: what it reports, with fuel above the nesting of the base value.
use mathlib.Core.Path.{fun_ext}
use sniff_css.Prelude.{
  ℕ, zero, suc, ◌≤◌, ◌<◌, String, ◌≡◌, refl, ◌∙◌, true, false, ◌↔◌, Option, none, some, arith, inl,
  inr, Bool-cases, Option-cases, contains,
}
use sniff_css.Json.{
  Value, object, Map, empty, keys, is_empty, Serde, MapLaws, EqLaws, option_eq, depth, depth_map,
}
use sniff_css.Json.Collect.{union_keys, contains-union_keys, collect, get-is_empty, get-collect}
use sniff_css.Diff.Values.{object_diff_fuel, object_diff, depth_opt}

module _ (S : Serde) (L : MapLaws S) where
  open S use {Number, get, value_eq}

  -- at a key of neither map there is nothing to compare
  absent :
      (am bm : Map Number) (k : String)
      → contains (union_keys (keys am) (keys bm)) k ≡ false
      → (get am k ≡ none) × (get bm k ≡ none)
  absent am bm k h =
      ground (
        arith,
        contains-union_keys (keys am) (keys bm) k,
        L.contains-keys am k,
        L.contains-keys bm k,
      )

  abbrev keywise :
      (Option (Value Number) → Option (Value Number) → Option (Value Number))
      → Map Number
      → Map Number
      → Map Number
  keywise rec am bm =
      collect S (λ k. rec (get am k) (get bm k)) (union_keys (keys am) (keys bm)) empty

  -- the loop over the keys of both maps has at each key what the recursive call gives there
  get-keywise :
      (rec : Option (Value Number) → Option (Value Number) → Option (Value Number))
      (am bm : Map Number) (k : String)
      → rec none none ≡ none
      → get (keywise rec am bm) k ≡ rec (get am k) (get bm k)
  get-keywise rec am bm k h = ground (
    arith,
    get-collect S L (λ j. rec (get am j) (get bm j)) (union_keys (keys am) (keys bm)) empty k,
    L.get-empty k,
    absent am bm k,
  )

  keywise-none :
      (rec : Option (Value Number) → Option (Value Number) → Option (Value Number))
      (am bm : Map Number) (k : String)
      → rec none none ≡ none
      → is_empty (keywise rec am bm) ≡ true
      → rec (get am k) (get bm k) ≡ none
  keywise-none rec am bm k h e =
      ground (arith, get-keywise rec am bm k h, get-is_empty S L (keywise rec am bm) e k)

  fuel_none : (n : ℕ) → object_diff_fuel S n none none ≡ none
  unfolding object_diff_fuel
  fuel_none zero = refl
  fuel_none (suc n) = refl

  depth_opt-get : (m : Map Number) (k : String) → depth_opt S (get m k) ≤ depth_map m
  depth_opt-get m k = elim (Option-cases (get m k)) [
    | inl e ↦ rw e (omega arith)
    | inr (v, e) ↦ rw e (L.depth-get m k v e)
  ]

  -- More fuel than the nesting of the base changes nothing.
  object_diff_fuel-enough :
      (n m : ℕ) (a b : Option (Value Number))
      → depth_opt S a < n
      → depth_opt S a < m
      → object_diff_fuel S n a b ≡ object_diff_fuel S m a b
  unfolding object_diff_fuel depth
  object_diff_fuel-enough zero m a b p q = absurd (omega arith)
  object_diff_fuel-enough (suc n) zero a b p q = absurd (omega arith)
  object_diff_fuel-enough (suc n) (suc m) (some (object am)) (some (object bm)) p q =
      rw
        (fun_ext λ k.
          object_diff_fuel-enough n m (get am k) (get bm k) (omega (arith, depth_opt-get am k))
            (omega (arith, depth_opt-get am k)))
        refl
  object_diff_fuel-enough (suc n) (suc m) none none p q = refl
  object_diff_fuel-enough (suc n) (suc m) none (some b) p q = refl
  object_diff_fuel-enough (suc n) (suc m) (some a) none p q = refl
  object_diff_fuel-enough (suc n) (suc m) (some a) (some b) p q = refl

  module _ (E : EqLaws S) where
    -- With enough fuel, no difference is reported only for equal values.
    object_diff_fuel-none :
        (n : ℕ) (a b : Option (Value Number))
        → depth_opt S a < n
        → object_diff_fuel S n a b ≡ none
        → option_eq S a b ≡ true
    unfolding object_diff_fuel depth
    object_diff_fuel-none zero a b p h = absurd (omega arith)
    object_diff_fuel-none (suc n) (some (object am)) (some (object bm)) p h =
        elim (Bool-cases (value_eq (object am) (object bm))) [
          | inl e ↦ e
          | inr e ↦ E.object_eq am bm λ k.
              object_diff_fuel-none n (get am k) (get bm k) (omega (arith, depth_opt-get am k))
                (keywise-none (object_diff_fuel S n) am bm k (fuel_none n) (ground arith))
        ]
    object_diff_fuel-none (suc n) none none p h = refl
    object_diff_fuel-none (suc n) none (some b) p h = cc
    object_diff_fuel-none (suc n) (some a) none p h = cc
    object_diff_fuel-none (suc n) (some a) (some b) p h = ground arith

    -- No difference is reported exactly when the two values are equal.
    pub object_diff-none_iff :
        (a b : Option (Value Number)) → (object_diff S a b ≡ none) ↔ (option_eq S a b ≡ true)
    unfolding object_diff object_diff_fuel
    object_diff-none_iff none none = (λ _. refl, λ _. refl)
    object_diff-none_iff none (some b) = (λ h. cc, λ h. cc)
    object_diff-none_iff (some a) none = (λ h. cc, λ h. cc)
    object_diff-none_iff (some a) (some b) =
        (object_diff_fuel-none (suc (depth a)) (some a) (some b) (omega arith), λ h. rw h)

    -- Two objects that differ are reported as an object that has, at each key, the difference of
    -- the values at that key.
    pub get-object_diff :
        (am bm : Map Number)
        → value_eq (object am) (object bm) ≡ false
        → (m : Map Number) × (object_diff S (some (object am)) (some (object bm)) ≡ some (object m))
          × ((k : String) → get m k ≡ object_diff S (get am k) (get bm k))
    unfolding object_diff object_diff_fuel depth
    get-object_diff am bm ne =
        let n = suc (depth_map am) in
        let m = keywise (object_diff_fuel S n) am bm in
        (
          m,
          elim (Bool-cases (is_empty m)) [
            | inl e ↦ absurd (
                cc (
                  object_diff_fuel-none (suc n) (some (object am)) (some (object bm)) (omega arith)
                    (rw (ne, e))))
            | inr e ↦ rw (ne, e)
          ],
          λ k.
              get-keywise (object_diff_fuel S n) am bm k (fuel_none n)
              ∙ object_diff_fuel-enough n (suc (depth_opt S (get am k))) (get am k) (get bm k)
                  (omega (arith, depth_opt-get am k)) (omega arith),
        )
