-- ===== src/Diff/Matching/Found.antt =====
-- What the searches of the matching find: an index in range whose head is not used yet.
use sniff_css.Prelude.{
  ℕ, suc, ◌+◌, ◌≡◌, refl, Bool, true, false, some, List, [], ◌∷◌, arith, String, str_eq, eq_iff,
  get_elem?, Bool-cases, inl, inr,
}
use sniff_css.Diff.Matching.{find_selector, find_unused}

-- `j` is an index, counted from `i`, of an unused head
abbrev pub Found : List Bool → ℕ → ℕ → Type 0
Found us i j = (k : ℕ) × (j ≡ i + k) × (get_elem? us k ≡ some false)

pub find_unused-Found : (us : List Bool) (i : ℕ) {j : ℕ} → find_unused us i ≡ some j → Found us i j
unfolding find_unused
find_unused-Found [] i h = cc
find_unused-Found (true ∷ us) i h =
    let (k, e, f) = find_unused-Found us (suc i) h in (suc k, omega arith, f)
find_unused-Found (false ∷ us) i h = (0, ground arith, refl)

pub find_selector-Found :
    (sel : String) (hs : List String) (us : List Bool) (i : ℕ) {j : ℕ}
    → find_selector sel hs us i ≡ some j
    → (k : ℕ) × (j ≡ i + k) × (get_elem? us k ≡ some false) × (get_elem? hs k ≡ some sel)
unfolding find_selector
find_selector-Found sel [] us i h = cc
find_selector-Found sel (x ∷ hs) [] i h = cc
find_selector-Found sel (x ∷ hs) (true ∷ us) i h =
    let (k, e, f, g) = find_selector-Found sel hs us (suc i) h in (suc k, omega arith, f, g)
find_selector-Found sel (x ∷ hs) (false ∷ us) i h = elim (Bool-cases (str_eq sel x)) [
  | inl same ↦ (0, ground arith, refl, ground (arith, eq_iff sel x))
  | inr other ↦
      let (k, e, f, g) = find_selector-Found sel hs us (suc i) (rw other at h) in
      (suc k, omega arith, f, g)
]
