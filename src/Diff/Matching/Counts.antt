-- ===== src/Diff/Matching/Counts.antt =====
-- How many siblings the two passes of the matching leave over.
use sniff_css.Prelude.{
  ℕ, zero, suc, ◌+◌, ◌-◌, ◌≡◌, refl, Bool, true, false, Option, none, some, List, [], ◌∷◌, arith,
  String, set, replicate, length, get_elem?, Option-cases, Bool-cases, inl, inr, is_empty_str,
}
use sniff_css.Diff.Matching.{
  find_unused, selector_slot, pass_selectors, pass_positions, match_siblings,
}
use sniff_css.Diff.Matching.Found.{find_unused-Found, find_selector-Found}

-- base siblings that have no partner
abbrev pub count_open : List (Option ℕ) → ℕ
count_open [] = 0
count_open (none ∷ slots) = suc (count_open slots)
count_open (some hi ∷ slots) = count_open slots

-- heads that nobody took
abbrev pub count_unused : List Bool → ℕ
count_unused [] = 0
count_unused (true ∷ us) = count_unused us
count_unused (false ∷ us) = suc (count_unused us)

pub selector_slot-Found :
    (sel : String) (hs : List String) (us : List Bool) {j : ℕ}
    → selector_slot sel hs us ≡ some j
    → (get_elem? us j ≡ some false) × (get_elem? hs j ≡ some sel)
unfolding selector_slot
selector_slot-Found sel hs us h = elim (Bool-cases (is_empty_str sel)) [
  | inl e ↦ cc
  | inr e ↦
      let (k, at, free, same) = find_selector-Found sel hs us 0 (rw e at h) in
      (ground arith, ground arith)
]

pub find_unused_zero :
    (us : List Bool) {j : ℕ} → find_unused us 0 ≡ some j → get_elem? us j ≡ some false
find_unused_zero us h = let (k, at, free) = find_unused-Found us 0 h in ground arith

find_unused-none : (us : List Bool) (i : ℕ) → find_unused us i ≡ none → count_unused us ≡ 0
unfolding find_unused
find_unused-none [] i h = refl
find_unused-none (true ∷ us) i h = find_unused-none us (suc i) h
find_unused-none (false ∷ us) i h = ground arith

count_unused-set :
    (us : List Bool) (k : ℕ)
    → get_elem? us k ≡ some false
    → suc (count_unused (set us k true)) ≡ count_unused us
count_unused-set [] k h = cc
count_unused-set (true ∷ us) zero h = cc
count_unused-set (false ∷ us) zero h = refl
count_unused-set (true ∷ us) (suc k) h = count_unused-set us k h
count_unused-set (false ∷ us) (suc k) h = omega (arith, count_unused-set us k h)

-- pass 1 opens a slot for each base sibling and closes one head for each slot that is filled
pass_selectors-count :
    (bs hs : List String) (us : List Bool)
    → count_unused (pass_selectors bs hs us).1 + length bs
      ≡ count_unused us + count_open (pass_selectors bs hs us).0
unfolding pass_selectors
pass_selectors-count [] hs us = omega arith
pass_selectors-count (b ∷ bs) hs us = elim (Option-cases (selector_slot b hs us)) [
  | inl e ↦ rw e (omega (arith, pass_selectors-count bs hs us))
  | inr (j, e) ↦ rw e (
      omega (
        arith,
        pass_selectors-count bs hs (set us j true),
        count_unused-set us j (selector_slot-Found b hs us e).0,
      ))
]

pass_positions-count :
    (slots : List (Option ℕ)) (us : List Bool)
    → (count_open (pass_positions slots us).0 ≡ count_open slots - count_unused us)
      × (count_unused (pass_positions slots us).1 ≡ count_unused us - count_open slots)
unfolding pass_positions
pass_positions-count [] us = omega arith
pass_positions-count (some hi ∷ slots) us = pass_positions-count slots us
pass_positions-count (none ∷ slots) us = elim (Option-cases (find_unused us 0)) [
  | inl e ↦ rw e (omega (arith, pass_positions-count slots us, find_unused-none us 0 e))
  | inr (j, e) ↦ rw e (
      omega (
        arith,
        pass_positions-count slots (set us j true),
        count_unused-set us j (find_unused_zero us e),
      ))
]

count_unused-replicate : (n : ℕ) → count_unused (replicate n false) ≡ n
count_unused-replicate zero = refl
count_unused-replicate (suc n) = omega (arith, count_unused-replicate n)

-- Two lists of siblings leave over exactly the surplus of the longer one: as many base siblings
-- have no partner as the base list is longer, and as many heads are not taken as the head list is
-- longer.
pub match_siblings-counts :
    (bs hs : List String)
    → (count_open (match_siblings bs hs).0 ≡ length bs - length hs)
      × (count_unused (match_siblings bs hs).1 ≡ length hs - length bs)
unfolding match_siblings
match_siblings-counts bs hs =
    let start : List Bool = replicate (length hs) false in
    omega (
      arith,
      pass_selectors-count bs hs start,
      pass_positions-count (pass_selectors bs hs start).0 (pass_selectors bs hs start).1,
      count_unused-replicate (length hs),
    )
