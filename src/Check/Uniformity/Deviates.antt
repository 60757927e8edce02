-- ===== src/Check/Uniformity/Deviates.antt =====
-- When a value deviates from its group in crates/sniff-css-check/src/uniformity.rs, said of the values themselves.
use sniff_css.Prelude.{
  suc, ◌≡◌, refl, sym, ◌⊎◌, inl, inr, String, Bool, true, false, not, ◌&&◌, Option, none, some,
  List, [], ◌∷◌, length, if◌then◌else◌, str_eq, eq_iff, arith, Bool-cases, Option-cases, subst, ◌≤◌,
  ◌∙◌, ap,
}
use sniff_css.Json.{Serde}
use sniff_css.Json.Floats.{Floats}
use sniff_css.Diff.Values.{strip_number}
use sniff_css.Check.Uniformity.Norms.{Props, find_prop}
use sniff_css.Check.Uniformity.Norms.Group.{IsNorm, are_numbers}
use sniff_css.Check.Uniformity.{
  Deviation, Instance, option_str_eq, present_values, unit_of, distance, at_most, per_instance,
}

module _ (S : Serde) (R : Floats S) (midpoint : S.F64 → S.F64 → S.F64) (tolerance : S.F64) where
  open S use {F64, Number}

  -- an instance of a list
  abbrev pub In : Instance S → List (Instance S) → Type 0
  In a [] = true ≡ false
  In a (x ∷ xs) = (a ≡ x) ⊎ In a xs

  -- the instances all have the property, with these values
  abbrev pub HaveValues : String → List (Instance S) → List String → Type 0
  HaveValues key [] [] = true ≡ true
  HaveValues key ((x, ps) ∷ xs) (v ∷ vs) = (find_prop ps key ≡ some v) × HaveValues key xs vs
  HaveValues key _ _ = true ≡ false

  abbrev pub same_unit : Option (F64 × String) → Option (F64 × String) → Bool
  same_unit (some (n, u)) (some (m, v)) = str_eq u v
  same_unit _ _ = false

  -- The magnitude of a deviation from a numeric norm with the same unit is the distance, which is above
  -- the tolerance; any other deviation has none.
  abbrev pub IsMagnitude : Bool → String → String → Option F64 → Type 0
  IsMagnitude numeric norm value magnitude =
      ((n : F64) × (m : F64) × (unit : String) × (numeric ≡ true)
        × (strip_number S norm ≡ some (n, unit))
        × (strip_number S value ≡ some (m, unit))
        × (magnitude ≡ some (S.abs (S.sub m n)))
        × (S.fle (S.abs (S.sub m n)) tolerance ≡ false))
      ⊎ (((numeric && same_unit (strip_number S norm) (strip_number S value)) ≡ false)
          × (magnitude ≡ none))

  -- one of the instances has the value, and this one has none
  abbrev pub Misses : List (Instance S) → Deviation S → Props → Type 0
  Misses all d ps =
      (find_prop ps d.property ≡ none)
      × (d.value ≡ "(missing)")
      × (d.magnitude ≡ none)
      × ((b : Instance S) × (norm : String) × In b all
          × (find_prop b.1 d.property ≡ some norm)
          × (d.norm ≡ some norm))

  -- all instances have values, and that of this one differs from their norm
  abbrev pub Differs : List (Instance S) → Deviation S → Props → Type 0
  Differs all d ps =
      (vs : List String) × (norm : String) × HaveValues d.property all vs
      × IsNorm S R midpoint vs norm
      × (d.norm ≡ some norm)
      × (find_prop ps d.property ≡ some d.value)
      × (str_eq d.value norm ≡ false)
      × IsMagnitude (are_numbers S R midpoint vs) norm d.value d.magnitude

  pub distance-IsMagnitude :
      (numeric : Bool) (norm value : String) (a b : Option (F64 × String))
      → strip_number S norm ≡ a
      → strip_number S value ≡ b
      → not (
          numeric
          && (at_most S R midpoint tolerance
                (if numeric then distance S R midpoint tolerance a b else none)
              && option_str_eq
                  (unit_of S R midpoint tolerance a)
                  (unit_of S R midpoint tolerance b)))
        ≡ true
      → IsMagnitude numeric norm value
          (if numeric then distance S R midpoint tolerance a b else none)
  distance-IsMagnitude false norm value a b p q h = inr (ground arith, refl)
  distance-IsMagnitude true norm value none b p q h = inr (rw (p, same_unit) refl, refl)
  distance-IsMagnitude true norm value (some (n, u)) none p q h = inr (rw (p, q) refl, refl)
  distance-IsMagnitude true norm value (some (n, u)) (some (m, v)) p q h =
      elim (Bool-cases (str_eq u v)) [
        | inl e ↦ inl (
          n,
          m,
          u,
          refl,
          p,
          q ∙ ap (λ w. some (m, w)) (sym ((eq_iff u v).0 e)),
          ground (arith, e),
          ground (arith, h, e),
        )
        | inr e ↦ inr (rw (p, q, same_unit) e, ground (arith, e))
      ]

  abbrev pub values_of : String → List (Instance S) → List (Option String)
  values_of key xs = per_instance S R midpoint tolerance key xs

  pub present_values-first :
      (key : String) (xs : List (Instance S)) (v : String) (vs : List String)
      → present_values (values_of key xs) ≡ v ∷ vs
      → (b : Instance S) × In b xs × (find_prop b.1 key ≡ some v)
  present_values-first key [] v vs h = absurd (ground (arith, h))
  present_values-first key ((x, ps) ∷ xs) v vs h = elim (Option-cases (find_prop ps key)) [
    | inl e ↦
        let (b, i, f) =
          present_values-first key xs v vs
            (subst (λ o. present_values (o ∷ values_of key xs) ≡ v ∷ vs) e h) in
        (b, inr i, f)
    | inr (w, e) ↦
        let q : w ∷ present_values (values_of key xs) ≡ v ∷ vs =
          subst (λ o. present_values (o ∷ values_of key xs) ≡ v ∷ vs) e h in
        ((x, ps), inl refl, cc (e, q))
  ]

  length-present_values : (os : List (Option String)) → length (present_values os) ≤ length os
  length-present_values [] = omega arith
  length-present_values (none ∷ os) = omega (arith, length-present_values os)
  length-present_values (some v ∷ os) = omega (arith, length-present_values os)

  pub present_values-HaveValues :
      (key : String) (xs : List (Instance S))
      → length (values_of key xs) ≡ length (present_values (values_of key xs))
      → HaveValues key xs (present_values (values_of key xs))
  present_values-HaveValues key [] h = refl
  present_values-HaveValues key ((x, ps) ∷ xs) h = elim (Option-cases (find_prop ps key)) [
    | inl e ↦
        let short : suc (length (values_of key xs)) ≡ length (present_values (values_of key xs)) =
          h ∙ ap (λ o. length (present_values (o ∷ values_of key xs))) e in
        absurd (omega (arith, short, length-present_values (values_of key xs)))
    | inr (w, e) ↦
        let same : suc (length (values_of key xs))
            ≡ suc (length (present_values (values_of key xs))) =
          h ∙ ap (λ o. length (present_values (o ∷ values_of key xs))) e in
        subst (λ o. HaveValues key ((x, ps) ∷ xs) (present_values (o ∷ values_of key xs))) (sym e)
          (e, present_values-HaveValues key xs (omega (arith, same)))
  ]
