-- ===== src/Effects/Report/Unchanged.antt =====
-- When an action is reported to have no effect.
use sniff_css.Prelude.{
  ℕ, ◌≡◌, refl, ap, ◌∙◌, sym, subst, ◌↔◌, String, Bool, true, false, ◌&&◌, Option, none, some, [],
  ◌∷◌, arith, is_some, str_eq, eq_iff, eq_refl, Bool-cases, inl, inr, and_left, and_right, and_true,
}
use sniff_css.Json.{Value, string, Serde, MapLaws}
use sniff_css.Json.Floats.{Floats}
use sniff_css.Output.Nodes.Loaded.{get-object}
use sniff_css.Effects.Geometry.{Plane}
use sniff_css.Effects.Records.{
  ElementRec, Recs, find_rec, keyed, parse_elements, parse_viewport, value_at,
}
use sniff_css.Effects.Records.Keyed.{last_with, IsKeyed, keyed-IsKeyed, find_rec-keyed}
use sniff_css.Effects.Entries.{ActionTarget}
use sniff_css.Effects.Report.{Effects, shown, compare_maps, effect_of, report_fields, diff}
use sniff_css.Effects.Report.Summary.{Action, effect_name}
use sniff_css.Effects.Report.Shown.{
  is_no_effect, is_no_effect-effect_name, is_nothing-shown, is_no_effect-classify_effect,
}
use sniff_css.Effects.Report.Quiet.{
  is_unchanged, is_unchanged_from, is_nothing, all_unchanged, all_present, compare_maps-is_nothing,
}

module _ (S : Serde) (R : Floats S) (P : Plane S) where
  open S use {Number, get}

  -- the same in both captures, or in neither
  abbrev pub is_same : Option (ElementRec S) → Option (ElementRec S) → Bool
  is_same none none = true
  is_same (some before) (some after) = is_unchanged S R P before after
  is_same _ _ = false

  is_same-from :
      (o : Option (ElementRec S)) (rec : ElementRec S)
      → is_unchanged_from S R P o rec ≡ true
      → is_same o (some rec) ≡ true
  is_same-from none rec h = h
  is_same-from (some before) rec h = h

  from-is_same :
      (o : Option (ElementRec S)) (rec : ElementRec S)
      → is_same o (some rec) ≡ true
      → is_unchanged_from S R P o rec ≡ true
  from-is_same none rec h = h
  from-is_same (some before) rec h = h

  all_unchanged-at :
      (before after : Recs S) (k : String)
      → all_unchanged S R P before after ≡ true
      → is_some (find_rec S after k) ≡ true
      → is_same (find_rec S before k) (find_rec S after k) ≡ true
  unfolding find_rec
  all_unchanged-at before [] k u h = absurd (ground (arith, h))
  all_unchanged-at before (rec ∷ recs) k u h = elim (Bool-cases (str_eq rec.key k)) [
    | inl e ↦ rw e (
        subst (λ j. is_same (find_rec S before j) (some rec) ≡ true) ((eq_iff rec.key k).0 e)
          (is_same-from (find_rec S before rec.key) rec (and_left _ _ u)))
    | inr e ↦ rw e (all_unchanged-at before recs k (and_right _ _ u) (ground (arith, h, e)))
  ]

  all_unchanged-intro :
      (before after : Recs S)
      → IsKeyed S after
      → ((k : String) (rec : ElementRec S)
          → find_rec S after k ≡ some rec
          → is_same (find_rec S before k) (some rec) ≡ true)
      → all_unchanged S R P before after ≡ true
  unfolding find_rec
  all_unchanged-intro before [] u h = refl
  all_unchanged-intro before (rec ∷ recs) (n, u) h =
      and_true _ _
        (from-is_same (find_rec S before rec.key) rec (h rec.key rec (rw (eq_refl rec.key) refl)))
        (all_unchanged-intro before recs u λ k r e. h k r (ground (arith, e, n, eq_iff rec.key k)))

  all_present-at :
      (after before : Recs S) (k : String)
      → all_present S R P after before ≡ true
      → is_some (find_rec S before k) ≡ true
      → is_some (find_rec S after k) ≡ true
  unfolding find_rec
  all_present-at after [] k u h = absurd (ground (arith, h))
  all_present-at after (rec ∷ recs) k u h =
      ground (arith, u, h, eq_iff rec.key k, all_present-at after recs k)

  all_present-intro :
      (after before : Recs S)
      → ((k : String) → is_some (find_rec S before k) ≡ true → is_some (find_rec S after k) ≡ true)
      → all_present S R P after before ≡ true
  unfolding find_rec
  all_present-intro after [] h = refl
  all_present-intro after (rec ∷ recs) h =
      and_true _ _ (h rec.key (rw (eq_refl rec.key) refl))
        (all_present-intro after recs λ k e. h k (ground (arith, e)))

  is_same_of :
      (o p : Option (ElementRec S))
      → (is_some p ≡ true → is_same o p ≡ true)
      → (is_some o ≡ true → is_some p ≡ true)
      → is_same o p ≡ true
  is_same_of none none f g = refl
  is_same_of (some before) none f g = g refl
  is_same_of o (some after) f g = f refl

  is_same-both :
      (o p : Option (ElementRec S)) → is_same o p ≡ true → is_some o ≡ true → is_some p ≡ true
  is_same-both none p h e = absurd (ground (arith, e))
  is_same-both (some before) none h e = h
  is_same-both (some before) (some after) h e = refl

  all-is_same_iff :
      (before after : Recs S)
      → IsKeyed S after
      → ((all_unchanged S R P before after && all_present S R P after before) ≡ true)
        ↔ ((k : String) → is_same (find_rec S before k) (find_rec S after k) ≡ true)
  all-is_same_iff before after u = (
    λ h k.
        is_same_of (find_rec S before k) (find_rec S after k)
          (all_unchanged-at before after k (and_left _ _ h))
          (all_present-at after before k (and_right _ _ h)),
    λ f.
        and_true _ _
          (all_unchanged-intro before after u
            λ k rec e. subst (λ o. is_same (find_rec S before k) o ≡ true) e (f k))
          (all_present-intro after before
            λ k. is_same-both (find_rec S before k) (find_rec S after k) (f k)),
  )

  -- the element of a capture that has a key
  abbrev pub element_at : Value Number → String → Option (ElementRec S)
  element_at v k = last_with S (parse_elements S R P v) k

  module _ (L : MapLaws S) (before after : Value Number) (target : ActionTarget S) (action : Action)
      (index limit : ℕ) where
    abbrev reported : Effects S
    reported =
        let (vw, vh) = parse_viewport S R P after in
        shown S R P limit (
          compare_maps S R P target vw vh (keyed S (parse_elements S R P before))
            (keyed S (parse_elements S R P after)))

    reported_effect :
        value_at S (diff S R P before after target action index limit) "effect"
        ≡ some (string (effect_name (effect_of S R P reported)))
    unfolding diff
    reported_effect =
        let (vw, vh) = parse_viewport S R P after in
        ap (λ f. f "effect")
          (get-object S R L (report_fields S R P target action index vw vh reported) refl)

    abbrev string_of : Option (Value Number) → String
    string_of (some (string s)) = s
    string_of _ = ""

    is_no_effect-reported : is_no_effect (effect_of S R P reported) ≡ is_nothing S R P reported
    unfolding effect_of
    is_no_effect-reported =
        is_no_effect-classify_effect S R P reported.appeared reported.removed reported.changed
          reported.n_revealed reported.n_hidden

    reported_iff :
        (value_at S (diff S R P before after target action index limit) "effect"
          ≡ some (string "no_effect"))
        ↔ (is_nothing S R P reported ≡ true)
    reported_iff = (
      λ h.
          sym is_no_effect-reported
          ∙ sym (is_no_effect-effect_name (effect_of S R P reported))
          ∙ ap (λ o. str_eq (string_of o) "no_effect") (sym reported_effect ∙ h),
      λ h.
          reported_effect
          ∙ ap (λ x. some (string x))
              ((eq_iff (effect_name (effect_of S R P reported)) "no_effect").0
                (is_no_effect-effect_name (effect_of S R P reported) ∙ is_no_effect-reported ∙ h)),
    )

    is_nothing-reported : is_nothing S R P reported ≡ (
        all_unchanged S R P
          (keyed S (parse_elements S R P before))
          (keyed S (parse_elements S R P after))
        && all_present S R P
            (keyed S (parse_elements S R P after))
            (keyed S (parse_elements S R P before)))
    is_nothing-reported =
        let (vw, vh) = parse_viewport S R P after in
        let b = keyed S (parse_elements S R P before) in
        let a = keyed S (parse_elements S R P after) in
        is_nothing-shown S R P limit (compare_maps S R P target vw vh b a)
        ∙ compare_maps-is_nothing S R P target vw vh b a

    -- The report of an action says that it had no effect exactly when each key has an element in
    -- both captures, which is as visible, does not differ in the compared properties beyond the
    -- tolerance, and has not moved unless it is a root, or in neither of them. Of elements with the
    -- same key the last one counts, and those with an empty key do not.
    pub diff-no_effect_iff :
        (value_at S (diff S R P before after target action index limit) "effect"
          ≡ some (string "no_effect"))
        ↔ ((k : String) → is_same (element_at before k) (element_at after k) ≡ true)
    diff-no_effect_iff =
        let b = parse_elements S R P before in
        let a = parse_elements S R P after in
        let same = all-is_same_iff (keyed S b) (keyed S a) (keyed-IsKeyed S a) in
        (
          λ h k.
              subst (λ o. is_same o (element_at after k) ≡ true) (find_rec-keyed S b k)
                (subst (λ o. is_same (find_rec S (keyed S b) k) o ≡ true) (find_rec-keyed S a k)
                  (same.0 (sym is_nothing-reported ∙ reported_iff.0 h) k)),
          λ f. reported_iff.1 (
              is_nothing-reported
              ∙ same.1 λ k.
                ap (λ o. is_same o (find_rec S (keyed S a) k)) (find_rec-keyed S b k)
                ∙ ap (is_same (element_at before k)) (find_rec-keyed S a k)
                ∙ f k),
        )
