-- ===== src/Check/Occlusion/Shown.antt =====
-- The candidates of `check_occlusion`, sorted, are elements of the page that are shown.
use sniff_css.Prelude.{
  ℕ, zero, suc, ◌≡◌, refl, true, some, List, [], ◌∷◌, arith, get_elem?, Bool-cases, inl, inr, subst,
}
use mathlib.Core.Option.{some-injective}
use sniff_css.Json.{Serde}
use sniff_css.Json.Floats.{Floats}
use sniff_css.Check.Flatten.{Flat}
use sniff_css.Check.Occlusion.{is_candidate, insert_by_x, left_of, sort_by_x, candidates}

module _ (S : Serde) where
  -- an entry of the list that has a box and is not hidden or transparent
  abbrev pub IsShown : List (Flat S) → Flat S → Type 0
  IsShown flat f = ((i : ℕ) × (get_elem? flat i ≡ some f)) × (is_candidate S f ≡ true)

  abbrev pub In : List (Flat S) → Flat S → Type 0
  In flat f = (i : ℕ) × (get_elem? flat i ≡ some f)

  abbrev pub Within : (Flat S → Type 0) → List (Flat S) → Type 0
  Within P fs = (j : ℕ) (f : Flat S) → get_elem? fs j ≡ some f → P f

  Within-cons :
      (P : Flat S → Type 0) (fs : List (Flat S)) (f : Flat S)
      → P f
      → Within P fs
      → Within P (f ∷ fs)
  Within-cons P fs f i w zero g h = subst P (some-injective _ _ h) i
  Within-cons P fs f i w (suc j) g h = w j g h

  pub Within-tail :
      (P : Flat S → Type 0) (fs : List (Flat S)) (f : Flat S) → Within P (f ∷ fs) → Within P fs
  Within-tail P fs f w j g h = w (suc j) g h

  pub candidates-Within :
      (flat fs : List (Flat S)) → Within (In flat) fs → Within (IsShown flat) (candidates S fs)
  unfolding candidates
  candidates-Within flat [] w = λ j f h. absurd (ground (arith, h))
  candidates-Within flat (f ∷ fs) w = elim (Bool-cases (is_candidate S f)) [
    | inl e ↦ rw e (
        Within-cons (IsShown flat) _ f (w 0 f refl, e)
          (candidates-Within flat fs (Within-tail (In flat) fs f w)))
    | inr e ↦ rw e (candidates-Within flat fs (Within-tail (In flat) fs f w))
  ]

  module _ (R : Floats S) where
    insert_by_x-Within :
        (P : Flat S → Type 0) (gs : List (Flat S)) (f : Flat S)
        → P f
        → Within P gs
        → Within P (insert_by_x S R f gs)
    unfolding insert_by_x
    insert_by_x-Within P [] f i w = Within-cons P [] f i w
    insert_by_x-Within P (g ∷ gs) f i w =
        elim (Bool-cases (R.total_le (left_of S f) (left_of S g))) [
          | inl e ↦ rw e (Within-cons P (g ∷ gs) f i w)
          | inr e ↦
              rw e (
                Within-cons P _ g (w 0 g refl) (insert_by_x-Within P gs f i (Within-tail P gs g w)))
        ]

    pub sort_by_x-Within :
        (P : Flat S → Type 0) (fs : List (Flat S)) → Within P fs → Within P (sort_by_x S R fs)
    unfolding sort_by_x
    sort_by_x-Within P [] w = w
    sort_by_x-Within P (f ∷ fs) w =
        insert_by_x-Within P (sort_by_x S R fs) f (w 0 f refl)
          (sort_by_x-Within P fs (Within-tail P fs f w))
