-- ===== src/Diff/Matching/Identity.antt =====
-- A list of siblings matched with itself: each sibling is its own partner.
use sniff_css.Prelude.{
  ℕ, suc, ◌+◌, ◌≡◌, refl, ap, ◌∙◌, Bool, true, false, not, Option, none, some, List, [], ◌∷◌, ◌++◌,
  arith, String, set, replicate, length, Bool-cases, inl, inr, if◌then◌else◌, eq_refl, eq_iff,
  is_empty_str, map,
}
use mathlib.Core.List.{append_assoc, append-nil}
use sniff_css.Diff.Matching.{
  find_unused, find_selector, selector_slot, pass_selectors, pass_positions, match_siblings, mark,
}

abbrev pub has_text : String → Bool
has_text s = not (is_empty_str s)

-- the slots `i`, `i + 1`, … for the siblings in `xs`
abbrev pub own_slots : ℕ → List String → List (Option ℕ)
own_slots i [] = []
own_slots i (x ∷ xs) = some i ∷ own_slots (suc i) xs

-- what pass 1 leaves of them: the siblings with a selector
abbrev named_slots : ℕ → List String → List (Option ℕ)
named_slots i [] = []
named_slots i (x ∷ xs) = (if is_empty_str x then none else some i) ∷ named_slots (suc i) xs

abbrev pub trues : List String → List Bool
trues [] = []
trues (x ∷ xs) = true ∷ trues xs

abbrev falses : List String → List Bool
falses [] = []
falses (x ∷ xs) = false ∷ falses xs

-- the earlier siblings with the same selector are used
find_selector_own :
    (ys : List String) (x : String) (xs : List String) (us : List Bool) (i : ℕ)
    → is_empty_str x ≡ false
    → find_selector x (ys ++ (x ∷ xs)) (map has_text ys ++ (false ∷ us)) i ≡ some (i + length ys)
unfolding find_selector
find_selector_own [] x xs us i ne = rw (eq_refl x) (ap some (omega arith))
find_selector_own (y ∷ ys) x xs us i ne =
    ground (arith, find_selector_own ys x xs us (suc i) ne, eq_iff x y)

set_own :
    (ys : List String) (u v : Bool) (us : List Bool)
    → set (map has_text ys ++ (u ∷ us)) (length ys) v ≡ map has_text ys ++ (v ∷ us)
set_own [] u v us = refl
set_own (y ∷ ys) u v us = ap (λ l. has_text y ∷ l) (set_own ys u v us)

length-snoc : (ys : List String) (x : String) → length (ys ++ (x ∷ [])) ≡ suc (length ys)
length-snoc [] x = refl
length-snoc (y ∷ ys) x = ap suc (length-snoc ys x)

marked_own :
    (ys : List String) (x : String) (us : List Bool)
    → map has_text ys ++ (has_text x ∷ us) ≡ map has_text (ys ++ (x ∷ [])) ++ us
marked_own [] x us = refl
marked_own (y ∷ ys) x us = ap (λ l. has_text y ∷ l) (marked_own ys x us)

slot_own :
    (ys : List String) (x : String) (xs : List String) (us : List Bool)
    → selector_slot x (ys ++ (x ∷ xs)) (map has_text ys ++ (false ∷ us))
      ≡ (if is_empty_str x then none else some (length ys))
unfolding selector_slot
slot_own ys x xs us = elim (Bool-cases (is_empty_str x)) [
  | inl e ↦ rw e
  | inr e ↦ rw e (find_selector_own ys x xs us 0 e ∙ ap some (omega arith))
]

mark_own :
    (ys : List String) (x : String) (us : List Bool)
    → mark (map has_text ys ++ (false ∷ us)) (if is_empty_str x then none else some (length ys))
      ≡ map has_text (ys ++ (x ∷ [])) ++ us
mark_own ys x us = elim (Bool-cases (is_empty_str x)) [
  | inl e ↦ rw e (rw e at (marked_own ys x us))
  | inr e ↦ rw e (set_own ys false true us ∙ (rw e at (marked_own ys x us)))
]

pass_selectors_own :
    (xs ys : List String)
    → pass_selectors xs (ys ++ xs) (map has_text ys ++ falses xs)
      ≡ (named_slots (length ys) xs, map has_text (ys ++ xs))
unfolding pass_selectors
pass_selectors_own [] ys = rw (append-nil ys, append-nil (map has_text ys))
pass_selectors_own (x ∷ xs) ys =
    let later : pass_selectors xs (ys ++ (x ∷ xs)) (map has_text (ys ++ (x ∷ [])) ++ falses xs)
        ≡ (named_slots (suc (length ys)) xs, map has_text (ys ++ (x ∷ xs))) =
      rw (length-snoc ys x, append_assoc ys (x ∷ []) xs) at
        (pass_selectors_own xs (ys ++ (x ∷ []))) in
    rw (slot_own ys x xs (falses xs), mark_own ys x (falses xs)) (cc later)

find_unused_own :
    (ys : List String) (us : List Bool) (i : ℕ)
    → find_unused (trues ys ++ (false ∷ us)) i ≡ some (i + length ys)
unfolding find_unused
find_unused_own [] us i = ap some (omega arith)
find_unused_own (y ∷ ys) us i = find_unused_own ys us (suc i) ∙ ap some (omega arith)

first_unused :
    (ys : List String) (us : List Bool)
    → find_unused (trues ys ++ (false ∷ us)) 0 ≡ some (length ys)
first_unused ys us = find_unused_own ys us 0 ∙ ap some (omega arith)

set-trues :
    (ys : List String) (u : Bool) (us : List Bool)
    → set (trues ys ++ (u ∷ us)) (length ys) true ≡ trues ys ++ (true ∷ us)
set-trues [] u us = refl
set-trues (y ∷ ys) u us = ap (λ l. true ∷ l) (set-trues ys u us)

trues-snoc :
    (ys : List String) (x : String) (us : List Bool)
    → trues ys ++ (true ∷ us) ≡ trues (ys ++ (x ∷ [])) ++ us
trues-snoc [] x us = refl
trues-snoc (y ∷ ys) x us = ap (λ l. true ∷ l) (trues-snoc ys x us)

pass_positions_own :
    (xs ys : List String)
    → pass_positions (named_slots (length ys) xs) (trues ys ++ map has_text xs)
      ≡ (own_slots (length ys) xs, trues (ys ++ xs))
unfolding pass_positions
pass_positions_own [] ys = rw (append-nil ys, append-nil (trues ys))
pass_positions_own (x ∷ xs) ys =
    let later : pass_positions (named_slots (suc (length ys)) xs)
          (trues (ys ++ (x ∷ [])) ++ map has_text xs)
        ≡ (own_slots (suc (length ys)) xs, trues (ys ++ (x ∷ xs))) =
      rw (length-snoc ys x, append_assoc ys (x ∷ []) xs) at
        (pass_positions_own xs (ys ++ (x ∷ []))) in
    elim (Bool-cases (is_empty_str x)) [
      | inl e ↦ rw e (
          rw (first_unused ys (map has_text xs), set-trues ys false (map has_text xs))
            (rw (trues-snoc ys x (map has_text xs)) (cc later)))
      | inr e ↦ rw e (rw (trues-snoc ys x (map has_text xs)) (cc later))
    ]

falses-replicate : (xs : List String) → replicate (length xs) false ≡ falses xs
falses-replicate [] = refl
falses-replicate (x ∷ xs) = ap (λ l. false ∷ l) (falses-replicate xs)

-- Matched with itself, every sibling is paired with itself, also where selectors repeat or are
-- missing, and every head is used.
pub match_siblings_self : (xs : List String) → match_siblings xs xs ≡ (own_slots 0 xs, trues xs)
unfolding match_siblings
match_siblings_self xs =
    rw (falses-replicate xs, pass_selectors_own xs []) (pass_positions_own xs [])
