-- ===== src/Check/Uniformity/Justified.antt =====
-- The deviations that `check_uniformity` of crates/sniff-css-check/src/uniformity.rs reports.
use sniff_css.Prelude.{
  ℕ, ◌≡◌, refl, sym, ◌⊎◌, inl, inr, String, Bool, true, false, not, ◌&&◌, Option, none, some, List,
  [], ◌∷◌, ◌++◌, length, ltb, ◌==◌, if◌then◌else◌, is_some, str_eq, eq_iff, arith, Bool-cases,
  Option-cases, sort_unstable, subst, ◌∙◌, ap,
}
use sniff_css.Json.{Serde}
use sniff_css.Json.Floats.{Floats}
use sniff_css.Model.{DiffNode, info}
use sniff_css.Diff.Values.{strip_number}
use sniff_css.Check.Uniformity.Norms.{Props, find_prop, group_norm}
use sniff_css.Check.Uniformity.Norms.Group.{IsNorm, are_numbers, group_norm-IsNorm}
use sniff_css.Check.Uniformity.{
  Deviation, Outlier, Instance, option_str_eq, present_values, all_keys, push_deviation,
  push_missing, unit_of, distance, at_most, push_mine, push_group, check_group, check_present,
  per_instance, check_keys, instances_of, check_uniformity,
}
use sniff_css.Check.Uniformity.Deviates.{
  In, HaveValues, IsMagnitude, Misses, Differs, distance-IsMagnitude, values_of,
  present_values-first, present_values-HaveValues,
}

module _ (S : Serde) (R : Floats S) (midpoint : S.F64 → S.F64 → S.F64) (tolerance : S.F64) where
  open S use {F64, Number}

  module _ (all : List (Instance S)) where
    -- an instance with the selector deviates
    abbrev pub IsJustified : String → Deviation S → Type 0
    IsJustified sel d =
        (a : Instance S) × In S R midpoint tolerance a all
        × ((info a.0).selector ≡ sel)
        × (Misses S R midpoint tolerance all d a.1 ⊎ Differs S R midpoint tolerance all d a.1)

    abbrev pub AllJustified : String → List (Deviation S) → Type 0
    AllJustified sel [] = true ≡ true
    AllJustified sel (d ∷ ds) = IsJustified sel d × AllJustified sel ds

    abbrev pub Sound : List (Outlier S) → Type 0
    Sound [] = true ≡ true
    Sound (o ∷ os) = AllJustified o.selector o.deviations × Sound os

    AllJustified-snoc :
        (sel : String) (ds : List (Deviation S)) (d : Deviation S)
        → AllJustified sel ds
        → IsJustified sel d
        → AllJustified sel (ds ++ d ∷ [])
    AllJustified-snoc sel [] d h j = (j, refl)
    AllJustified-snoc sel (e ∷ ds) d (i, h) j = (i, AllJustified-snoc sel ds d h j)

    push_deviation-Sound :
        (os : List (Outlier S)) (x : DiffNode Number) (key norm value : String)
        (magnitude : Option F64)
        → IsJustified
            (info x).selector
            (record { property = key; norm = some norm; value = value; magnitude = magnitude })
        → Sound os
        → Sound (push_deviation S R midpoint tolerance os x key norm value magnitude)
    unfolding push_deviation
    push_deviation-Sound [] x key norm value magnitude j h = ((j, refl), refl)
    push_deviation-Sound (o ∷ os) x key norm value magnitude j (a, h) =
        elim (Bool-cases (str_eq o.selector (info x).selector)) [
          | inl e ↦ rw e (
            AllJustified-snoc o.selector o.deviations _ a (
                subst
                  (λ s. IsJustified s (record {
                    property = key;
                    norm = some norm;
                    value = value;
                    magnitude = magnitude;
                  }))
                  (sym ((eq_iff o.selector (info x).selector).0 e)) j),
            h,
          )
          | inr e ↦ rw e (a, push_deviation-Sound os x key norm value magnitude j h)
        ]

    push_missing-Sound :
        (key norm : String) (xs : List (Instance S)) (os : List (Outlier S))
        → ((a : Instance S) → In S R midpoint tolerance a xs → In S R midpoint tolerance a all)
        → (b : Instance S) × In S R midpoint tolerance b all × (find_prop b.1 key ≡ some norm)
        → Sound os
        → Sound (push_missing S R midpoint tolerance key norm xs os)
    unfolding push_missing
    push_missing-Sound key norm [] os f g h = h
    push_missing-Sound key norm ((x, ps) ∷ xs) os f g h =
        push_missing-Sound key norm xs
          (if is_some (find_prop ps key)
            then os
            else push_deviation S R midpoint tolerance os x key norm "(missing)" none)
          (λ a i. f a (inr i)) g
          (elim (Option-cases (find_prop ps key)) [
            | inr (v, e) ↦ rw e h
            | inl e ↦ rw e (
                push_deviation-Sound os x key norm "(missing)" none
                  (
                    (x, ps),
                    f (x, ps) (inl refl),
                    refl,
                    inl (e, refl, refl, (g.0, norm, g.1, g.2, refl)),
                  )
                  h)
          ])

    push_if-Sound :
        (b c : Bool) (os ps : List (Outlier S))
        → Sound os
        → (b ≡ true → c ≡ true → Sound ps)
        → Sound (if b && c then ps else os)
    push_if-Sound true true os ps h f = f refl refl
    push_if-Sound true false os ps h f = h
    push_if-Sound false true os ps h f = h
    push_if-Sound false false os ps h f = h

    module _ (key norm : String) (numeric : Bool) (vs : List String)
        (have : HaveValues S R midpoint tolerance key all vs)
        (is_norm : IsNorm S R midpoint vs norm) (same : numeric ≡ are_numbers S R midpoint vs) where
      push_mine-Sound :
          (x : DiffNode Number) (ps : Props) (o : Option String) (os : List (Outlier S))
          → In S R midpoint tolerance (x, ps) all
          → find_prop ps key ≡ o
          → Sound os
          → Sound (push_mine S R midpoint tolerance key norm numeric x o os)
      unfolding push_mine
      push_mine-Sound x ps none os i e h = h
      push_mine-Sound x ps (some mine) os i e h =
          let a = strip_number S norm in
          let b = strip_number S mine in
          let magnitude = if numeric then distance S R midpoint tolerance a b else none in
          let is_within =
            numeric
            && (at_most S R midpoint tolerance magnitude
                && option_str_eq (unit_of S R midpoint tolerance a)
                    (unit_of S R midpoint tolerance b)) in
          push_if-Sound (not is_within) (not (str_eq mine norm)) os _ h λ w n.
            push_deviation-Sound os x key norm mine magnitude
              (
                (x, ps),
                i,
                refl,
                inr (
                  vs,
                  norm,
                  have,
                  is_norm,
                  refl,
                  e,
                  ground (arith, n),
                  subst (λ t. IsMagnitude S R midpoint tolerance t norm mine magnitude) same
                      (distance-IsMagnitude S R midpoint tolerance numeric norm mine a b refl refl
                        w),
                ),
              )
              h

      push_group-Sound :
          (xs : List (Instance S)) (os : List (Outlier S))
          → ((a : Instance S) → In S R midpoint tolerance a xs → In S R midpoint tolerance a all)
          → Sound os
          → Sound (push_group S R midpoint tolerance key norm numeric xs os)
      unfolding push_group
      push_group-Sound [] os f h = h
      push_group-Sound ((x, ps) ∷ xs) os f h =
          push_group-Sound xs
            (push_mine S R midpoint tolerance key norm numeric x (find_prop ps key) os)
            (λ a i. f a (inr i))
            (push_mine-Sound x ps (find_prop ps key) os (f (x, ps) (inl refl)) refl h)

    check_group-Sound :
        (key : String) (vs : List String) (o : Option (String × Bool)) (os : List (Outlier S))
        → HaveValues S R midpoint tolerance key all vs
        → group_norm S R midpoint vs ≡ o
        → Sound os
        → Sound (check_group S R midpoint tolerance key all o os)
    unfolding check_group
    check_group-Sound key vs none os d e h = h
    check_group-Sound key vs (some (norm, numeric)) os d e h =
        let (n, s) = group_norm-IsNorm S R midpoint vs norm numeric e in
        push_group-Sound key norm numeric vs d n s all os (λ a i. i) h

    check_present-Sound :
        (key : String) (n : ℕ) (vs : List String) (os : List (Outlier S))
        → length (values_of S R midpoint tolerance key all) ≡ n
        → present_values (values_of S R midpoint tolerance key all) ≡ vs
        → Sound os
        → Sound (check_present S R midpoint tolerance key all n vs os)
    unfolding check_present
    check_present-Sound key n [] os l p h = h
    check_present-Sound key n (norm ∷ vs) os l p h = elim (Bool-cases (n == length (norm ∷ vs))) [
      | inl e ↦
          let counted_all : n ≡ length (norm ∷ vs) = ground (arith, e) in
          let full : length (values_of S R midpoint tolerance key all)
              ≡ length (present_values (values_of S R midpoint tolerance key all)) =
            l ∙ counted_all ∙ ap length (sym p) in
          rw e (
            check_group-Sound key (norm ∷ vs) (group_norm S R midpoint (norm ∷ vs)) os
              (subst (HaveValues S R midpoint tolerance key all) p
                (present_values-HaveValues S R midpoint tolerance key all full))
              refl h)
      | inr e ↦ rw e (
          push_missing-Sound key norm all os (λ a i. i)
            (present_values-first S R midpoint tolerance key all norm vs p) h)
    ]

    check_keys-Sound :
        (ks : List String) (os : List (Outlier S))
        → Sound os
        → Sound (check_keys S R midpoint tolerance ks all os)
    unfolding check_keys
    check_keys-Sound [] os h = h
    check_keys-Sound (key ∷ ks) os h =
        let values = per_instance S R midpoint tolerance key all in
        check_keys-Sound ks
          (check_present S R midpoint tolerance key all (length values) (present_values values) os)
          (check_present-Sound key (length values) (present_values values) os refl refl h)

  -- Whatever the uniformity check reports is so: for each deviation of an outlier there is an
  -- instance with its selector. Either this instance does not have the property, and the norm is the
  -- value of another one; or all instances have it, the given value is that of this one, it differs
  -- from the norm of their values (the median with its unit if all are numbers with one unit, and
  -- otherwise a value that no other is more often than), and the magnitude is the distance of the
  -- two, which is above the tolerance, or there is none as the values are not such numbers.
  pub check_uniformity-Sound :
      (nodes : List (DiffNode Number))
      → Sound
          (instances_of S R midpoint tolerance nodes)
          (check_uniformity S R midpoint tolerance nodes).outliers
  unfolding check_uniformity
  check_uniformity-Sound nodes =
      let xs = instances_of S R midpoint tolerance nodes in
      elim (Bool-cases (ltb (length xs) 2)) [
        | inl e ↦ rw e refl
        | inr e ↦
            rw e
              (check_keys-Sound xs (sort_unstable (all_keys S R midpoint tolerance xs [])) [] refl)
      ]
