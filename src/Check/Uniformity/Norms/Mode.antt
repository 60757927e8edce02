-- ===== src/Check/Uniformity/Norms/Mode.antt =====
-- The mode of the values of a group in crates/sniff-css-check/src/uniformity.rs.
use Prim.Native.String.{compare}
use text.Mathlib.Text.{is_le}
use sniff_css.Prelude.{
  ℕ, ◌+◌, ◌≤◌, min, ◌≡◌, refl, ◌∙◌, subst, String, true, false, ◌||◌, List, [], ◌∷◌, leb,
  if◌then◌else◌, str_eq, eq_iff, saturating_add, usize_max, arith, Bool-cases, inl, inr,
}
use sniff_css.Check.Uniformity.Norms.{has_key, add_one, place_one, bump, counted, last_max, mode_of}

-- how often a value is in a list
abbrev pub times : String → List String → ℕ
times v [] = 0
times v (w ∷ ws) = (if str_eq w v then 1 else 0) + times v ws

-- No value is there more often, as far as can be counted.
abbrev pub IsMode : List String → String → Type 0
IsMode vs m = (v : String) → min (times v vs) usize_max ≤ times m vs

-- every entry has the number of its key
abbrev Counts : (String → ℕ) → List (String × ℕ) → Type 0
Counts t [] = true ≡ true
Counts t ((j, n) ∷ m) = (n ≡ t j) × Counts t m

abbrev Absent : (String → ℕ) → List (String × ℕ) → Type 0
Absent t m = (k : String) → has_key m k ≡ false → t k ≡ 0

abbrev one_more : String → (String → ℕ) → String → ℕ
one_more k t j = if str_eq k j then saturating_add (t j) 1 else t j

add_one-Counts :
    (t : String → ℕ) (k : String) (m : List (String × ℕ))
    → Counts t m
    → Counts (one_more k t) (add_one k m)
add_one-Counts t k [] h = h
add_one-Counts t k ((j, n) ∷ m) (e, h) =
    (ground (arith, e, eq_iff j k, eq_iff k j), add_one-Counts t k m h)

other-Counts :
    (t : String → ℕ) (k : String) (m : List (String × ℕ))
    → has_key m k ≡ false
    → Counts t m
    → Counts (one_more k t) m
other-Counts t k [] a h = h
other-Counts t k ((j, n) ∷ m) a (e, h) =
    (ground (arith, a, e, eq_iff j k, eq_iff k j), other-Counts t k m (ground (arith, a)) h)

place_one-Counts :
    (t : String → ℕ) (k : String) (m : List (String × ℕ))
    → t k ≡ 0
    → has_key m k ≡ false
    → Counts t m
    → Counts (one_more k t) (place_one k m)
place_one-Counts t k [] z a h = (ground (arith, z, (eq_iff k k).1 refl), h)
place_one-Counts t k ((j, n) ∷ m) z a (e, h) = elim (Bool-cases (is_le (compare k j))) [
  | inl l ↦ rw l (ground (arith, z, (eq_iff k k).1 refl), other-Counts t k ((j, n) ∷ m) a (e, h))
  | inr l ↦
      rw l (
        ground (arith, a, e, eq_iff j k, eq_iff k j),
        place_one-Counts t k m z (ground (arith, a)) h,
      )
]

has_key-add_one : (k j : String) (m : List (String × ℕ)) → has_key (add_one k m) j ≡ has_key m j
has_key-add_one k j [] = refl
has_key-add_one k j ((i, n) ∷ m) = ground (arith, has_key-add_one k j m)

has_key-place_one :
    (k j : String) (m : List (String × ℕ)) → has_key (place_one k m) j ≡ (str_eq k j || has_key m j)
has_key-place_one k j [] = refl
has_key-place_one k j ((i, n) ∷ m) = elim (Bool-cases (is_le (compare k i))) [
  | inl l ↦ rw l refl
  | inr l ↦ rw l (ground (arith, has_key-place_one k j m))
]

bump-Counts :
    (t : String → ℕ) (k : String) (m : List (String × ℕ))
    → Counts t m
    → Absent t m
    → Counts (one_more k t) (bump k m)
unfolding bump
bump-Counts t k m h a = elim (Bool-cases (has_key m k)) [
  | inl e ↦ rw e (add_one-Counts t k m h)
  | inr e ↦ rw e (place_one-Counts t k m (a k e) e h)
]

bump-Absent :
    (t : String → ℕ) (k : String) (m : List (String × ℕ))
    → Absent t m
    → Absent (one_more k t) (bump k m)
unfolding bump
bump-Absent t k m a j h = elim (Bool-cases (has_key m k)) [
  | inl e ↦
      let g : has_key m j ≡ false = ground (arith, h, e, has_key-add_one k j m) in
      ground (arith, e, g, a j g, eq_iff k j)
  | inr e ↦
      let g : (str_eq k j || has_key m j) ≡ false = ground (arith, h, e, has_key-place_one k j m) in
      let g' : has_key m j ≡ false = ground (arith, g) in ground (arith, g, a j g')
]

-- the numbers after all values have been counted
abbrev after : (String → ℕ) → List String → String → ℕ
after t [] = t
after t (v ∷ vs) = after (one_more v t) vs

counted-Counts :
    (t : String → ℕ) (vs : List String) (m : List (String × ℕ))
    → Counts t m
    → Absent t m
    → Counts (after t vs) (counted vs m) × Absent (after t vs) (counted vs m)
counted-Counts t [] m h a = (h, a)
counted-Counts t (v ∷ vs) m h a =
    counted-Counts (one_more v t) vs (bump v m) (bump-Counts t v m h a) (bump-Absent t v m a)

after-times :
    (t : String → ℕ) (vs : List String) (j : String)
    → t j ≤ usize_max
    → after t vs j ≡ min (t j + times j vs) usize_max
after-times t [] j h = omega (arith, h)
after-times t (v ∷ vs) j h = after-times (one_more v t) vs j (ground (arith, h)) ∙ ground (arith, h)

same_key : (t : String → ℕ) (k j : String) → str_eq k j ≡ true → {n : ℕ} → t k ≤ n → t j ≤ n
same_key t k j b {n} h = subst (λ i. t i ≤ n) ((eq_iff k j).0 b) h

-- the entry that is taken has at least the number of each
last_max-most :
    (t : String → ℕ) (k : String) (n : ℕ) (m : List (String × ℕ)) (j : String)
    → Counts t ((k, n) ∷ m)
    → has_key ((k, n) ∷ m) j ≡ true
    → t j ≤ t (last_max (k, n) m)
last_max-most t k n [] j (e, h) q = same_key t k j (ground (arith, q)) (omega arith)
last_max-most t k n ((i, c) ∷ m) j (e, (g, h)) q = elim (Bool-cases (leb n c)) [
  | inl l ↦
      let own : t i ≤ t (last_max (i, c) m) =
        last_max-most t i c m i (g, h) (ground (arith, (eq_iff i i).1 refl)) in
      rw l (elim (Bool-cases (str_eq k j)) [
        | inl b ↦ same_key t k j b (ground (arith, l, e, g, own))
        | inr b ↦ last_max-most t i c m j (g, h) (ground (arith, q, b))
      ])
  | inr l ↦
      let own : t k ≤ t (last_max (k, n) m) =
        last_max-most t k n m k (e, h) (ground (arith, (eq_iff k k).1 refl)) in
      rw l (elim (Bool-cases (str_eq i j)) [
        | inl b ↦ same_key t i j b (ground (arith, l, e, g, own))
        | inr b ↦ last_max-most t k n m j (e, h) (ground (arith, q, b))
      ])
]

mode_of-most :
    (t : String → ℕ) (first : String) (m : List (String × ℕ)) (j : String)
    → Counts t m
    → Absent t m
    → t j ≤ t (mode_of first m)
mode_of-most t first [] j h a = omega (arith, a j refl)
mode_of-most t first ((k, n) ∷ m) j h a = elim (Bool-cases (has_key ((k, n) ∷ m) j)) [
  | inl e ↦ last_max-most t k n m j h e
  | inr e ↦ omega (arith, a j e)
]

pub mode_of-IsMode : (first : String) (vs : List String) → IsMode vs (mode_of first (counted vs []))
mode_of-IsMode first vs v =
    let m = mode_of first (counted vs []) in
    let none : String → ℕ = λ j. 0 in
    let (c, a) = counted-Counts none vs [] refl (λ k h. refl) in
    omega (
      arith,
      mode_of-most (after none vs) first (counted vs []) v c a,
      after-times none vs v (omega arith),
      after-times none vs m (omega arith),
    )
