-- ===== src/Diff/Matching/Anchors.antt =====
-- Stable selectors decide first: siblings that share a selector are paired with one another.
use sniff_css.Prelude.{
  ℕ, zero, suc, ◌+◌, ◌≤◌, min, ◌≡◌, refl, Bool, true, false, not, ◌&&◌, Option, none, some, List,
  [], ◌∷◌, arith, String, set, replicate, length, get_elem?, Option-cases, inl, inr, if◌then◌else◌,
  str_eq, eq_iff, is_empty_str,
}
use sniff_css.Diff.Matching.{
  find_unused, find_selector, selector_slot, pass_selectors, pass_positions, match_siblings,
}
use sniff_css.Diff.Matching.Counts.{selector_slot-Found}

-- how often a selector occurs
abbrev pub occurrences : String → List String → ℕ
occurrences s [] = 0
occurrences s (x ∷ xs) = (if str_eq s x then 1 else 0) + occurrences s xs

-- the unused heads with a selector
abbrev free : String → List String → List Bool → ℕ
free s [] us = 0
free s (h ∷ hs) [] = 0
free s (h ∷ hs) (u ∷ us) = (if not u && str_eq s h then 1 else 0) + free s hs us

abbrev is_at : String → Option String → Bool
is_at s none = false
is_at s (some h) = str_eq s h

-- the slot holds a head with the selector
abbrev pub holds : String → Option ℕ → List String → Bool
holds s none hs = false
holds s (some j) hs = is_at s (get_elem? hs j)

-- the base siblings with a selector that are paired with a head of that selector
abbrev pub anchored : String → List String → List (Option ℕ) → List String → ℕ
anchored s [] slots hs = 0
anchored s (b ∷ bs) [] hs = 0
anchored s (b ∷ bs) (slot ∷ slots) hs =
    (if str_eq s b && holds s slot hs then 1 else 0) + anchored s bs slots hs

find_selector-none :
    (s : String) (hs : List String) (us : List Bool) (i : ℕ)
    → find_selector s hs us i ≡ none
    → free s hs us ≡ 0
unfolding find_selector
find_selector-none s [] us i h = refl
find_selector-none s (x ∷ hs) [] i h = refl
find_selector-none s (x ∷ hs) (u ∷ us) i h = ground (arith, find_selector-none s hs us (suc i))

free-set :
    (s : String) (hs : List String) (us : List Bool) (j : ℕ) {h : String}
    → get_elem? us j ≡ some false
    → get_elem? hs j ≡ some h
    → free s hs us ≡ (if str_eq s h then 1 else 0) + free s hs (set us j true)
free-set s [] us j e f = cc
free-set s (x ∷ hs) [] j e f = cc
free-set s (x ∷ hs) (u ∷ us) zero e f = ground arith
free-set s (x ∷ hs) (u ∷ us) (suc j) e f = ground (arith, free-set s hs us j e f)

selector_slot-none :
    (s : String) (hs : List String) (us : List Bool)
    → is_empty_str s ≡ false
    → selector_slot s hs us ≡ none
    → free s hs us ≡ 0
unfolding selector_slot
selector_slot-none s hs us ne h = ground (arith, find_selector-none s hs us 0)

-- Pass 1 pairs as many as there are on both sides.
pass_selectors-anchored :
    (s : String) (bs hs : List String) (us : List Bool)
    → is_empty_str s ≡ false
    → anchored s bs (pass_selectors bs hs us).0 hs ≡ min (occurrences s bs) (free s hs us)
unfolding pass_selectors
pass_selectors-anchored s [] hs us ne = omega arith
pass_selectors-anchored s (b ∷ bs) hs us ne = elim (Option-cases (selector_slot b hs us)) [
  | inl e ↦ rw e (
      ground
        (arith, pass_selectors-anchored s bs hs us ne, eq_iff s b, selector_slot-none s hs us ne))
  | inr (j, e) ↦
      let (unused, same) = selector_slot-Found b hs us e in
      rw e (
        ground (
          arith,
          pass_selectors-anchored s bs hs (set us j true) ne,
          free-set s hs us j unused same,
        ))
]

-- Pass 2 keeps what pass 1 paired.
pass_positions-anchored :
    (s : String) (bs hs : List String) (slots : List (Option ℕ)) (us : List Bool)
    → anchored s bs slots hs ≤ anchored s bs (pass_positions slots us).0 hs
unfolding pass_positions
pass_positions-anchored s [] hs slots us = omega arith
pass_positions-anchored s (b ∷ bs) hs [] us = omega arith
pass_positions-anchored s (b ∷ bs) hs (some hi ∷ slots) us =
    omega (arith, pass_positions-anchored s bs hs slots us)
pass_positions-anchored s (b ∷ bs) hs (none ∷ slots) us = elim (Option-cases (find_unused us 0)) [
  | inl e ↦ rw e (omega (arith, pass_positions-anchored s bs hs slots us))
  | inr (j, e) ↦ rw e (ground (arith, pass_positions-anchored s bs hs slots (set us j true)))
]

free-replicate :
    (s : String) (hs : List String) → free s hs (replicate (length hs) false) ≡ occurrences s hs
free-replicate s [] = refl
free-replicate s (h ∷ hs) = ground (arith, free-replicate s hs)

-- Of the siblings with a given non-empty selector, at least as many as occur on both sides are
-- paired with a sibling of that same selector.
pub match_siblings-anchored :
    (s : String) (bs hs : List String)
    → is_empty_str s ≡ false
    → min (occurrences s bs) (occurrences s hs) ≤ anchored s bs (match_siblings bs hs).0 hs
unfolding match_siblings
match_siblings-anchored s bs hs ne =
    let start : List Bool = replicate (length hs) false in
    let first = pass_selectors bs hs start in
    omega (
      arith,
      pass_selectors-anchored s bs hs start ne,
      pass_positions-anchored s bs hs first.0 first.1,
      free-replicate s hs,
    )
