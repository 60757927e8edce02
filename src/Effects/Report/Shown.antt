-- ===== src/Effects/Report/Shown.antt =====
-- What sorting, cutting and classifying keep of the effects.
use sniff_css.Prelude.{
  ℕ, zero, suc, ◌≡◌, refl, Bool, true, false, ◌&&◌, List, [], ◌∷◌, arith, ◌==◌, str_eq, Bool-cases,
  inl, inr,
}
use sniff_css.Json.{Value, Serde}
use sniff_css.Json.Floats.{Floats}
use sniff_css.Effects.Geometry.{Plane}
use sniff_css.Effects.Entries.{is_empty_list}
use sniff_css.Effects.Report.{Effects, shown}
use sniff_css.Effects.Report.Summary.{
  Effect, no_effect, revealed, hidden, changed, moved, effect_name, classify_effect, any_css_diff,
}
use sniff_css.Effects.Report.Ranks.{
  Rank, limited, insert_ranked, sort_ranked, ranked, ranked_changes, entry_rank, change_rank,
  rank_ge,
}
use sniff_css.Effects.Report.Quiet.{is_nothing}

is_empty_list-limited :
    {A : Type 0} (n : ℕ) (xs : List A) → is_empty_list (limited n xs) ≡ is_empty_list xs
is_empty_list-limited zero xs = refl
is_empty_list-limited (suc n) [] = refl
is_empty_list-limited (suc n) (x ∷ xs) = refl

is_empty_list-insert_ranked :
    {A : Type 0} (rank : A → Rank) (x : A) (xs : List A)
    → is_empty_list (insert_ranked rank x xs) ≡ false
unfolding insert_ranked
is_empty_list-insert_ranked rank x [] = refl
is_empty_list-insert_ranked rank x (y ∷ ys) = elim (Bool-cases (rank_ge (rank x) (rank y))) [
  | inl e ↦ rw e refl
  | inr e ↦ rw e refl
]

is_empty_list-sort_ranked :
    {A : Type 0} (rank : A → Rank) (xs : List A)
    → is_empty_list (sort_ranked rank xs) ≡ is_empty_list xs
unfolding sort_ranked
is_empty_list-sort_ranked rank [] = refl
is_empty_list-sort_ranked rank (x ∷ xs) = is_empty_list-insert_ranked rank x (sort_ranked rank xs)

abbrev pub is_no_effect : Effect → Bool
is_no_effect no_effect = true
is_no_effect _ = false

pub is_no_effect-effect_name : (e : Effect) → str_eq (effect_name e) "no_effect" ≡ is_no_effect e
is_no_effect-effect_name revealed = refl
is_no_effect-effect_name hidden = refl
is_no_effect-effect_name changed = refl
is_no_effect-effect_name moved = refl
is_no_effect-effect_name no_effect = refl

module _ (S : Serde) (R : Floats S) (P : Plane S) where
  open S use {Number}

  pub is_nothing-shown :
      (limit : ℕ) (s : Effects S) → is_nothing S R P (shown S R P limit s) ≡ is_nothing S R P s
  unfolding shown ranked ranked_changes
  is_nothing-shown limit s =
      rw
        (
          is_empty_list-limited limit (ranked S R P s.appeared),
          is_empty_list-limited limit (ranked S R P s.removed),
          is_empty_list-limited limit (ranked_changes S R P s.changed),
          is_empty_list-sort_ranked (entry_rank S R P) s.appeared,
          is_empty_list-sort_ranked (entry_rank S R P) s.removed,
          is_empty_list-sort_ranked (change_rank S R P) s.changed,
        )
        refl

  pub is_no_effect-classify_effect :
      (a r c : List (Value Number)) (n m : ℕ)
      → is_no_effect (classify_effect S R P a r c n m)
        ≡ ((is_empty_list a && (is_empty_list c && (n == 0 && m == 0))) && is_empty_list r)
  unfolding classify_effect
  is_no_effect-classify_effect (x ∷ a) r c n m = ground arith
  is_no_effect-classify_effect [] r c (suc n) m = ground arith
  is_no_effect-classify_effect [] (x ∷ r) c zero m = ground arith
  is_no_effect-classify_effect [] [] c zero (suc m) = ground arith
  is_no_effect-classify_effect [] [] [] zero zero = refl
  is_no_effect-classify_effect [] [] (x ∷ c) zero zero =
      elim (Bool-cases (any_css_diff S R P (x ∷ c))) [ inl e ↦ rw e refl | inr e ↦ rw e refl ]
