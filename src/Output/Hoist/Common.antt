-- ===== src/Output/Hoist/Common.antt =====
-- What `category_defaults` holds: values that every node has.
use sniff_css.Prelude.{
  and_left, and_right, ℕ, zero, suc, String, ◌≡◌, refl, ap, ◌∙◌, subst, sym, true, false, Option,
  none, some, List, [], ◌∷◌, arith, str_eq, eq_iff, get_elem?, Bool-cases, inl, inr,
}
use mathlib.Core.Option.{some-injective}
use sniff_css.Json.{
  Value, object, Map, empty, entry, as_object, is_empty, Serde, MapLaws, EntryLaws, IsUnique,
  option_eq,
}
use sniff_css.Output.Hoist.{
  object_at, get_in, style_at, all_have, common_props, common_category, common_categories,
  category_defaults, put_nonempty,
}

none_or_some : {A : Type 0} {a : A} → ◌≡◌ {A = Option A} none (some a) → ⊥
none_or_some h = absurd (ground (arith, h))

module _ (S : Serde) (L : MapLaws S) (E : EntryLaws S) where
  open S use {Number, get, insert}

  get-insert_own :
      (m : Map Number) (k j : String) (v : Value Number)
      → str_eq k j ≡ true
      → get (insert m k v) j ≡ some v
  get-insert_own m k j v t = L.get-insert m k j v ∙ rw t refl

  get-insert_other :
      (m : Map Number) (k j : String) (v : Value Number)
      → str_eq k j ≡ false
      → get (insert m k v) j ≡ get m j
  get-insert_other m k j v t = L.get-insert m k j v ∙ rw t refl

  module _ (per_node : List (Map Number)) where
    -- every property of a map, and of the categories of a map, is one that all nodes have
    abbrev CommonProps : String → Map Number → Type 0
    CommonProps cat m =
        (prop : String) (v : Value Number)
        → get m prop ≡ some v
        → all_have S per_node cat prop v ≡ true

    abbrev Common : Map Number → Type 0
    Common D =
        (cat prop : String) (v : Value Number)
        → style_at S D cat prop ≡ some v
        → all_have S per_node cat prop v ≡ true

    insert-CommonProps :
        (cat prop : String) (v : Value Number) (out : Map Number)
        → all_have S per_node cat prop v ≡ true
        → CommonProps cat out
        → CommonProps cat (insert out prop v)
    insert-CommonProps cat prop v out a c q w h = elim (Bool-cases (str_eq prop q)) [
      | inl e ↦
          subst (λ k. all_have S per_node cat k w ≡ true) ((eq_iff prop q).0 e)
            (subst (λ x. all_have S per_node cat prop x ≡ true)
              (some-injective _ _ (sym (get-insert_own out prop q v e) ∙ h)) a)
      | inr e ↦ c q w (sym (get-insert_other out prop q v e) ∙ h)
    ]

    common_props-CommonProps :
        (cat : String) (m out : Map Number)
        → CommonProps cat out
        → CommonProps cat (common_props S per_node cat m out)
    unfolding common_props
    common_props-CommonProps cat empty out c = c
    common_props-CommonProps cat (entry prop v m) out c =
        elim (Bool-cases (all_have S per_node cat prop v)) [
          | inl e ↦ rw e (
              common_props-CommonProps cat m (insert out prop v)
                (insert-CommonProps cat prop v out e c))
          | inr e ↦ rw e (common_props-CommonProps cat m out c)
        ]

    put_nonempty-Common :
        (out : Map Number) (cat : String) (m : Map Number)
        → CommonProps cat m
        → Common out
        → Common (put_nonempty S out cat m)
    put_nonempty-Common out cat m p c = elim (Bool-cases (is_empty m)) [
      | inl e ↦ rw (e, put_nonempty) c
      | inr e ↦
          rw (e, put_nonempty)
            (λ k prop v h. elim (Bool-cases (str_eq cat k)) [
              | inl t ↦
                  subst (λ j. all_have S per_node j prop v ≡ true) ((eq_iff cat k).0 t)
                    (p prop v (
                      sym (
                        ap (λ o. get_in S (object_at S o) prop)
                          (get-insert_own out cat k (object m) t))
                      ∙ h))
              | inr t ↦ c k prop v (
                  sym (
                    ap (λ o. get_in S (object_at S o) prop)
                      (get-insert_other out cat k (object m) t))
                  ∙ h)
            ])
    ]

    empty-CommonProps : (cat : String) → CommonProps cat empty
    empty-CommonProps cat prop v h = absurd (ground (arith, L.get-empty prop, h))

    empty-Common : Common empty
    empty-Common cat prop v h =
        absurd (none_or_some (sym (ap (λ o. get_in S (object_at S o) prop) (L.get-empty cat)) ∙ h))

    common_category-Common :
        (cat : String) (o : Option (Map Number)) (out : Map Number)
        → Common out
        → Common (common_category S per_node cat o out)
    common_category-Common cat none out c = c
    common_category-Common cat (some props) out c =
        put_nonempty-Common out cat (common_props S per_node cat props empty)
          (common_props-CommonProps cat props empty (empty-CommonProps cat)) c

    common_categories-Common :
        (m out : Map Number) → Common out → Common (common_categories S per_node m out)
    unfolding common_categories
    common_categories-Common empty out c = c
    common_categories-Common (entry cat props m) out c =
        common_categories-Common m _ (common_category-Common cat (as_object props) out c)

    common_category-IsUnique :
        (cat : String) (o : Option (Map Number)) (out : Map Number)
        → IsUnique out
        → IsUnique (common_category S per_node cat o out)
    common_category-IsUnique cat none out u = u
    common_category-IsUnique cat (some props) out u =
        elim (Bool-cases (is_empty (common_props S per_node cat props empty))) [
          | inl e ↦ rw (e, common_category, put_nonempty) u
          | inr e ↦ rw (e, common_category, put_nonempty) (E.insert-IsUnique out cat _ u)
        ]

    common_categories-IsUnique :
        (m out : Map Number) → IsUnique out → IsUnique (common_categories S per_node m out)
    unfolding common_categories
    common_categories-IsUnique empty out u = u
    common_categories-IsUnique (entry cat props m) out u =
        common_categories-IsUnique m _ (common_category-IsUnique cat (as_object props) out u)

  pub category_defaults-IsUnique :
      (per_node : List (Map Number)) → IsUnique (category_defaults S per_node)
  unfolding category_defaults
  category_defaults-IsUnique [] = refl
  category_defaults-IsUnique (first ∷ rest) =
      common_categories-IsUnique (first ∷ rest) first empty refl

  all_have-member :
      (ms : List (Map Number)) (i : ℕ) {m : Map Number} (cat prop : String) (v : Value Number)
      → get_elem? ms i ≡ some m
      → all_have S ms cat prop v ≡ true
      → option_eq S (style_at S m cat prop) (some v) ≡ true
  unfolding all_have
  all_have-member [] i cat prop v h a = absurd (ground (arith, h))
  all_have-member (n ∷ ms) zero cat prop v h a =
      subst (λ m. option_eq S (style_at S m cat prop) (some v) ≡ true) (some-injective _ _ h)
        (and_left _ _ a)
  all_have-member (n ∷ ms) (suc i) cat prop v h a =
      all_have-member ms i cat prop v h (and_right _ _ a)

  -- What the defaults have is what each of the nodes has.
  pub category_defaults-common :
      (per_node : List (Map Number)) (i : ℕ) {m : Map Number} (cat prop : String) (v : Value Number)
      → get_elem? per_node i ≡ some m
      → style_at S (category_defaults S per_node) cat prop ≡ some v
      → option_eq S (style_at S m cat prop) (some v) ≡ true
  unfolding category_defaults
  category_defaults-common [] i cat prop v h d = absurd (ground (arith, h))
  category_defaults-common (first ∷ rest) i cat prop v h d =
      all_have-member (first ∷ rest) i cat prop v h (
        common_categories-Common (first ∷ rest) first empty (empty-Common (first ∷ rest)) cat prop v
          d)
