-- ===== src/Check/Uniformity/Uniform.antt =====
-- Instances with the same properties have no outliers in crates/sniff-css-check/src/uniformity.rs.
use sniff_css.Prelude.{
  ℕ, zero, suc, ◌≡◌, refl, ap, ◌∙◌, String, true, ◌&&◌, Option, none, some, List, [], ◌∷◌, length,
  ltb, str_eq, eq_refl, arith, replicate, length-replicate, Bool-cases, inl, inr, sort_unstable,
}
use sniff_css.Json.{Serde}
use sniff_css.Json.Floats.{Floats}
use sniff_css.Model.{DiffNode}
use sniff_css.Check.Uniformity.Norms.{Props, find_prop, flat_props, all_equal, group_norm}
use sniff_css.Check.Uniformity.{
  Outlier, Instance, present_values, all_keys, check_group, check_present, per_instance, check_keys,
  instances_of, check_uniformity,
}

all_equal-replicate : (v : String) (n : ℕ) → all_equal v (replicate n v) ≡ true
all_equal-replicate v zero = refl
all_equal-replicate v (suc n) = ground (arith, eq_refl v, all_equal-replicate v n)

module _ (S : Serde) (R : Floats S) (midpoint : S.F64 → S.F64 → S.F64) (tolerance : S.F64) where
  open S use {Number}

  -- every node has the properties
  abbrev pub HaveProps : Props → List (DiffNode Number) → Type 0
  HaveProps ps [] = true ≡ true
  HaveProps ps (x ∷ xs) = (flat_props S R midpoint x ≡ ps) × HaveProps ps xs

  per_instance-replicate :
      (key : String) (ps : Props) (xs : List (DiffNode Number))
      → HaveProps ps xs
      → per_instance S R midpoint tolerance key (instances_of S R midpoint tolerance xs)
        ≡ replicate (length xs) (find_prop ps key)
  per_instance-replicate key ps [] h = refl
  per_instance-replicate key ps (x ∷ xs) (e, h) = rw (e, per_instance-replicate key ps xs h) refl

  present_values-none : (n : ℕ) → present_values (replicate n none) ≡ []
  present_values-none zero = refl
  present_values-none (suc n) = present_values-none n

  present_values-some : (n : ℕ) (v : String) → present_values (replicate n (some v)) ≡ replicate n v
  present_values-some zero v = refl
  present_values-some (suc n) v = ap (◌∷◌ v) (present_values-some n v)

  group_norm-replicate : (n : ℕ) (v : String) → group_norm S R midpoint (replicate n v) ≡ none
  unfolding group_norm
  group_norm-replicate zero v = refl
  group_norm-replicate (suc n) v =
      rw (ap (◌&&◌ (str_eq v v)) (all_equal-replicate v n), eq_refl v) refl

  check_present-replicate :
      (key : String) (xs : List (Instance S)) (n : ℕ) (o : Option String) (os : List (Outlier S))
      → check_present S R midpoint tolerance key xs
          (length (replicate n o))
          (present_values (replicate n o))
          os
        ≡ os
  unfolding check_present check_group
  check_present-replicate key xs n none os = rw (present_values-none n) refl
  check_present-replicate key xs zero (some v) os = refl
  check_present-replicate key xs (suc n) (some v) os =
      rw
        (
          present_values-some n v,
          length-replicate n v,
          length-replicate n (some v),
          eq_refl v,
          all_equal-replicate v n,
        )
        (ground arith)

  check_keys_same :
      (ks : List String) (ps : Props) (xs : List (DiffNode Number)) (os : List (Outlier S))
      → HaveProps ps xs
      → check_keys S R midpoint tolerance ks (instances_of S R midpoint tolerance xs) os ≡ os
  unfolding check_keys
  check_keys_same [] ps xs os h = refl
  check_keys_same (key ∷ ks) ps xs os h =
      let is = instances_of S R midpoint tolerance xs in
      ap
        (λ vs.
          check_keys S R midpoint tolerance ks is
            (check_present S R midpoint tolerance key is (length vs) (present_values vs) os))
        (per_instance-replicate key ps xs h)
      ∙ ap (check_keys S R midpoint tolerance ks is)
          (check_present-replicate key is (length xs) (find_prop ps key) os)
      ∙ check_keys_same ks ps xs os h

  -- If all instances have the same properties with the same values, then there are no outliers.
  pub check_uniformity_same :
      (ps : Props) (nodes : List (DiffNode Number))
      → HaveProps ps nodes
      → (check_uniformity S R midpoint tolerance nodes).outliers ≡ []
  unfolding check_uniformity
  check_uniformity_same ps nodes h =
      let is = instances_of S R midpoint tolerance nodes in
      elim (Bool-cases (ltb (length is) 2)) [
        | inl e ↦ rw e refl
        | inr e ↦
            rw e (
              check_keys_same (sort_unstable (all_keys S R midpoint tolerance is [])) ps nodes [] h)
      ]
