-- ===== src/Check/Uniformity/Norms/Group.antt =====
-- The norm of a group in crates/sniff-css-check/src/uniformity.rs.
use Prim.Native.String.{◌++◌ as str_append}
use sniff_css.Prelude.{
  ◌≤◌, ◌≡◌, refl, ◌∙◌, sym, ap, subst, ◌⊎◌, inl, inr, String, Bool, true, false, ◌&&◌, Option, none,
  some, List, [], ◌∷◌, length, ◌==◌, if◌then◌else◌, str_eq, eq_iff, arith, Bool-cases, Option-cases,
  and_left, and_right,
}
use mathlib.Core.Option.{some-injective}
use sniff_css.Json.{Serde}
use sniff_css.Json.Floats.{Floats}
use sniff_css.Diff.Values.{strip_number}
use sniff_css.Check.Uniformity.Norms.{
  add_number, numbers_of, all_unit, all_equal, sorted_numbers, median, mode_of, counted, norm_of,
  group_norm,
}
use sniff_css.Check.Uniformity.Norms.Mode.{IsMode, mode_of-IsMode}
use sniff_css.Check.Uniformity.Norms.Median.{IsMedian, firsts, median-IsMedian}

short_test : {A : Type 0} (a b : Bool) (x y : A) → a ≡ false → (if a && b then x else y) ≡ y
short_test true b x y h = absurd (ground (arith, h))
short_test false true x y h = refl
short_test false false x y h = refl

module _ (S : Serde) (R : Floats S) (midpoint : S.F64 → S.F64 → S.F64) where
  open S use {F64}

  -- a number with a unit
  abbrev pub is_of_unit : String → Option (F64 × String) → Bool
  is_of_unit unit none = false
  is_of_unit unit (some (n, u)) = str_eq u unit

  abbrev pub all_of_unit : String → List String → Bool
  all_of_unit unit [] = true
  all_of_unit unit (v ∷ vs) = is_of_unit unit (strip_number S v) && all_of_unit unit vs

  abbrev unit_of_first : Option (F64 × String) → List String → Bool
  unit_of_first none vs = false
  unit_of_first (some (n, u)) vs = all_of_unit u vs

  -- all values are numbers, with the unit of the first
  abbrev pub are_numbers : List String → Bool
  are_numbers [] = false
  are_numbers (v ∷ vs) = unit_of_first (strip_number S v) (v ∷ vs)

  -- the numbers of the values, which have the unit
  abbrev pub Numbers : List String → List F64 → String → Type 0
  Numbers [] [] unit = true ≡ true
  Numbers (v ∷ vs) (n ∷ ns) unit = (strip_number S v ≡ some (n, unit)) × Numbers vs ns unit
  Numbers _ _ unit = true ≡ false

  -- the median of numbers, with their unit, and the mode of other values
  abbrev pub IsNorm : List String → String → Type 0
  IsNorm vs norm =
      ((unit : String) × (ns : List F64) × (m : F64) × (are_numbers vs ≡ true)
        × Numbers vs ns unit
        × IsMedian S R midpoint ns m
        × (norm ≡ str_append (R.show m) unit))
      ⊎ ((are_numbers vs ≡ false) × IsMode vs norm)

  length-numbers_of : (vs : List String) → length (numbers_of S R midpoint vs) ≤ length vs
  unfolding numbers_of
  length-numbers_of [] = omega arith
  length-numbers_of (v ∷ vs) = elim (Option-cases (strip_number S v)) [
    | inl e ↦ rw e (omega (arith, length-numbers_of vs))
    | inr (n, e) ↦ rw e (omega (arith, length-numbers_of vs))
  ]

  -- the code's test on the numbers that were found is that on the values
  all_unit-numbers_of :
      (unit : String) (vs : List String)
      → (length (numbers_of S R midpoint vs) == length vs
          && all_unit S R midpoint unit (numbers_of S R midpoint vs))
        ≡ all_of_unit unit vs
  unfolding numbers_of
  all_unit-numbers_of unit [] = refl
  all_unit-numbers_of unit (v ∷ vs) = elim (Option-cases (strip_number S v)) [
    | inl e ↦ rw (e, is_of_unit) (ground (arith, length-numbers_of vs))
    | inr ((n, u), e) ↦ rw (e, is_of_unit) (ground (arith, all_unit-numbers_of unit vs))
  ]

  numbers_of-Numbers :
      (unit : String) (vs : List String)
      → all_of_unit unit vs ≡ true
      → Numbers vs (firsts S R midpoint (numbers_of S R midpoint vs)) unit
  unfolding numbers_of
  numbers_of-Numbers unit [] h = refl
  numbers_of-Numbers unit (v ∷ vs) h = elim (Option-cases (strip_number S v)) [
    | inl e ↦ absurd (ground (arith, h, e))
    | inr ((n, u), e) ↦
        let b : (str_eq u unit && all_of_unit unit vs) ≡ true =
          subst (λ o. (is_of_unit unit o && all_of_unit unit vs) ≡ true) e h in
        let same : u ≡ unit = (eq_iff u unit).0 (and_left _ _ b) in
        rw e (e ∙ ap (λ w. some (n, w)) same, numbers_of-Numbers unit vs (and_right _ _ b))
  ]

  tested :
      (t : Bool) (first : String) (vs : List String) (m : F64) (unit : String) (ns : List F64)
      (r : String × Bool)
      → (if t then (str_append (R.show m) unit, true) else (mode_of first (counted vs []), false))
        ≡ r
      → are_numbers vs ≡ t
      → (t ≡ true → Numbers vs ns unit)
      → IsMedian S R midpoint ns m
      → IsNorm vs r.0 × (r.1 ≡ are_numbers vs)
  tested true first vs m unit ns r h e f d =
      (inl (unit, ns, m, e, f refl, d, sym (ap (λ x. x.0) h)), sym (ap (λ x. x.1) h) ∙ sym e)
  tested false first vs m unit ns r h e f d = (
    inr (e, subst (IsMode vs) (ap (λ x. x.0) h) (mode_of-IsMode first vs)),
    sym (ap (λ x. x.1) h) ∙ sym e,
  )

  are_numbers-some :
      (v : String) (vs : List String) (n : F64) (u : String)
      → strip_number S v ≡ some (n, u)
      → are_numbers (v ∷ vs) ≡ all_of_unit u (v ∷ vs)
  are_numbers-some v vs n u e = ap (λ o. unit_of_first o (v ∷ vs)) e

  -- not all values are numbers
  norm_of-short :
      (v : String) (vs : List String) (ns : List (F64 × String))
      → length ns ≤ length vs
      → norm_of S R midpoint v (v ∷ vs) ns ≡ (mode_of v (counted (v ∷ vs) []), false)
  unfolding norm_of
  norm_of-short v vs [] h = refl
  norm_of-short v vs ((n, u) ∷ ns) h =
      short_test (length ((n, u) ∷ ns) == length (v ∷ vs)) (all_unit S R midpoint u ((n, u) ∷ ns)) _
        _ (ground (arith, h))

  norm_of-IsNorm :
      (v : String) (vs : List String) (r : String × Bool)
      → norm_of S R midpoint v (v ∷ vs) (numbers_of S R midpoint (v ∷ vs)) ≡ r
      → IsNorm (v ∷ vs) r.0 × (r.1 ≡ are_numbers (v ∷ vs))
  unfolding norm_of numbers_of
  norm_of-IsNorm v vs r h = elim (Option-cases (strip_number S v)) [
    | inl e ↦
        let found : numbers_of S R midpoint (v ∷ vs) ≡ numbers_of S R midpoint vs =
          ap (λ o. add_number S R midpoint o (numbers_of S R midpoint vs)) e in
        let q : (mode_of v (counted (v ∷ vs) []), false) ≡ r =
          sym (norm_of-short v vs (numbers_of S R midpoint vs) (length-numbers_of vs))
          ∙ ap (norm_of S R midpoint v (v ∷ vs)) (sym found)
          ∙ h in
        let z : are_numbers (v ∷ vs) ≡ false = ap (λ o. unit_of_first o (v ∷ vs)) e in
        (
          inr (z, subst (IsMode (v ∷ vs)) (ap (λ x. x.0) q) (mode_of-IsMode v (v ∷ vs))),
          sym (ap (λ x. x.1) q) ∙ sym z,
        )
    | inr ((n, u), e) ↦
        let ns = numbers_of S R midpoint vs in
        let found : numbers_of S R midpoint (v ∷ vs) ≡ (n, u) ∷ ns =
          ap (λ o. add_number S R midpoint o ns) e in
        let t : are_numbers (v ∷ vs)
            ≡ (length ((n, u) ∷ ns) == length (v ∷ vs) && all_unit S R midpoint u ((n, u) ∷ ns)) =
          are_numbers-some v vs n u e
          ∙ sym (all_unit-numbers_of u (v ∷ vs))
          ∙ ap (λ xs. length xs == length (v ∷ vs) && all_unit S R midpoint u xs) found in
        tested (length ((n, u) ∷ ns) == length (v ∷ vs) && all_unit S R midpoint u ((n, u) ∷ ns)) v
          (v ∷ vs) (median S R midpoint (sorted_numbers S R midpoint ((n, u) ∷ ns))) u
          (firsts S R midpoint ((n, u) ∷ ns)) r
          (ap (norm_of S R midpoint v (v ∷ vs)) (sym found) ∙ h) t
          (λ w.
            subst (λ xs. Numbers (v ∷ vs) (firsts S R midpoint xs) u) found
              (numbers_of-Numbers u (v ∷ vs) (sym (are_numbers-some v vs n u e) ∙ t ∙ w)))
          (median-IsMedian S R midpoint n u ns)
  ]

  -- The norm of a group is the median or the mode, and it is numeric if all values are numbers with
  -- one unit.
  pub group_norm-IsNorm :
      (vs : List String) (norm : String) (numeric : Bool)
      → group_norm S R midpoint vs ≡ some (norm, numeric)
      → IsNorm vs norm × (numeric ≡ are_numbers vs)
  unfolding group_norm
  group_norm-IsNorm [] norm numeric h = absurd (ground (arith, h))
  group_norm-IsNorm (v ∷ vs) norm numeric h = elim (Bool-cases (all_equal v (v ∷ vs))) [
    | inl e ↦ absurd (ground (arith, h, e))
    | inr e ↦
        norm_of-IsNorm v vs (norm, numeric)
          (some-injective _ _ (
            subst
              (λ t.
                ◌≡◌ {A = Option (String × Bool)}
                  (if t
                    then none
                    else some (norm_of S R midpoint v (v ∷ vs) (numbers_of S R midpoint (v ∷ vs))))
                  (some (norm, numeric)))
              e h))
  ]
