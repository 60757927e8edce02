-- ===== src/Diff/Matching/Pairs.antt =====
-- The matching pairs each head with at most one base sibling.
use sniff_css.Prelude.{
  ℕ, zero, suc, ◌+◌, ◌≡◌, refl, Bool, true, false, Option, none, some, List, [], ◌∷◌, arith, String,
  set, replicate, length, get_elem?, Option-cases, inl, inr, ◌==◌, if◌then◌else◌,
}
use sniff_css.Diff.Matching.{
  find_unused, selector_slot, pass_selectors, pass_positions, match_siblings,
}
use sniff_css.Diff.Matching.Counts.{selector_slot-Found, find_unused_zero}

-- how many slots hold the head `k`
abbrev pub times : ℕ → List (Option ℕ) → ℕ
times k [] = 0
times k (none ∷ slots) = times k slots
times k (some hi ∷ slots) = (if hi == k then 1 else 0) + times k slots

-- 1 if the head `k` is marked as used
abbrev pub taken : List Bool → ℕ → ℕ
taken [] k = 0
taken (u ∷ us) zero = if u then 1 else 0
taken (u ∷ us) (suc k) = taken us k

taken-set :
    (us : List Bool) (j k : ℕ)
    → get_elem? us j ≡ some false
    → taken (set us j true) k ≡ (if j == k then 1 else 0) + taken us k
taken-set [] j k h = cc
taken-set (u ∷ us) zero zero h = ground arith
taken-set (u ∷ us) zero (suc k) h = ground arith
taken-set (u ∷ us) (suc j) zero h = ground arith
taken-set (u ∷ us) (suc j) (suc k) h = ground (arith, taken-set us j k h)

pass_selectors-times :
    (bs hs : List String) (us : List Bool) (k : ℕ)
    → times k (pass_selectors bs hs us).0 + taken us k ≡ taken (pass_selectors bs hs us).1 k
unfolding pass_selectors
pass_selectors-times [] hs us k = omega arith
pass_selectors-times (b ∷ bs) hs us k = elim (Option-cases (selector_slot b hs us)) [
  | inl e ↦ rw e (pass_selectors-times bs hs us k)
  | inr (j, e) ↦ rw e (
      omega (
        arith,
        pass_selectors-times bs hs (set us j true) k,
        taken-set us j k (selector_slot-Found b hs us e).0,
      ))
]

pass_positions-times :
    (slots : List (Option ℕ)) (us : List Bool) (k : ℕ)
    → times k (pass_positions slots us).0 + taken us k
      ≡ times k slots + taken (pass_positions slots us).1 k
unfolding pass_positions
pass_positions-times [] us k = omega arith
pass_positions-times (some hi ∷ slots) us k = omega (arith, pass_positions-times slots us k)
pass_positions-times (none ∷ slots) us k = elim (Option-cases (find_unused us 0)) [
  | inl e ↦ rw e (pass_positions-times slots us k)
  | inr (j, e) ↦ rw e (
      omega (
        arith,
        pass_positions-times slots (set us j true) k,
        taken-set us j k (find_unused_zero us e),
      ))
]

taken-replicate : (n k : ℕ) → taken (replicate n false) k ≡ 0
taken-replicate zero k = refl
taken-replicate (suc n) zero = refl
taken-replicate (suc n) (suc k) = taken-replicate n k

-- A head stands in exactly one slot if it is marked as used, and in none otherwise. So no head is
-- compared with two base siblings, and no compared head is reported as added.
pub match_siblings-times :
    (bs hs : List String) (k : ℕ)
    → times k (match_siblings bs hs).0 ≡ taken (match_siblings bs hs).1 k
unfolding match_siblings
match_siblings-times bs hs k =
    let start : List Bool = replicate (length hs) false in
    omega (
      arith,
      pass_selectors-times bs hs start k,
      pass_positions-times (pass_selectors bs hs start).0 (pass_selectors bs hs start).1 k,
      taken-replicate (length hs) k,
    )
