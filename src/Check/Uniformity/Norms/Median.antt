-- ===== src/Check/Uniformity/Norms/Median.antt =====
-- The median of the numbers of a group in crates/sniff-css-check/src/uniformity.rs.
use sniff_css.Prelude.{
  ℕ, zero, suc, ◌+◌, ◌-◌, ◌/◌, ◌%◌, ◌<◌, ◌≡◌, refl, ◌∙◌, sym, subst, ap, ◌⊎◌, inl, inr, String,
  Bool, true, false, some, List, [], ◌∷◌, length, ◌==◌, if◌then◌else◌, get_elem?, arith, Bool-cases,
}
use sniff_css.Json.{Serde}
use sniff_css.Json.Floats.{Floats}
use sniff_css.Check.Uniformity.Norms.{insert_number, sorted_numbers, number_at, median}

get_elem?-inside :
    {A : Type 0} (xs : List A) (i : ℕ) → i < length xs → (x : A) × (get_elem? xs i ≡ some x)
get_elem?-inside [] i h = absurd (omega (arith, h))
get_elem?-inside (x ∷ xs) zero h = (x, refl)
get_elem?-inside (x ∷ xs) (suc i) h = get_elem?-inside xs i (omega (arith, h))

module _ (S : Serde) (R : Floats S) (midpoint : S.F64 → S.F64 → S.F64) where
  open S use {F64, fle}

  -- how many numbers pass a test
  abbrev pub passing : (F64 → Bool) → List F64 → ℕ
  passing p [] = 0
  passing p (x ∷ xs) = (if p x then 1 else 0) + passing p xs

  -- the same numbers, each as often
  abbrev pub SameNumbers : List F64 → List F64 → Type 0
  SameNumbers xs ys = (p : F64 → Bool) → passing p xs ≡ passing p ys

  -- no number is above the next
  abbrev pub InOrder : List F64 → Type 0
  InOrder [] = true ≡ true
  InOrder (x ∷ []) = true ≡ true
  InOrder (x ∷ y ∷ ys) = ((fle x y ≡ true) ⊎ (fle y x ≡ false)) × InOrder (y ∷ ys)

  -- the number in the middle, or halfway between the two that are
  abbrev pub IsMiddle : List F64 → F64 → Type 0
  IsMiddle xs m =
      ((k : ℕ) × (length xs ≡ k + k + 1) × (get_elem? xs k ≡ some m))
      ⊎ ((k : ℕ) × (a : F64) × (b : F64) × (length xs ≡ k + k + 2)
          × (get_elem? xs k ≡ some a)
          × (get_elem? xs (k + 1) ≡ some b)
          × (m ≡ midpoint a b))

  abbrev pub IsMedian : List F64 → F64 → Type 0
  IsMedian xs m = (ys : List F64) × SameNumbers xs ys × InOrder ys × IsMiddle ys m

  abbrev pub firsts : List (F64 × String) → List F64
  firsts [] = []
  firsts ((n, u) ∷ ns) = n ∷ firsts ns

  passing-insert_number :
      (p : F64 → Bool) (x : F64) (ys : List F64)
      → passing p (insert_number S R midpoint x ys) ≡ (if p x then 1 else 0) + passing p ys
  unfolding insert_number
  passing-insert_number p x [] = refl
  passing-insert_number p x (y ∷ ys) = ground (arith, passing-insert_number p x ys)

  length-insert_number :
      (x : F64) (ys : List F64) → length (insert_number S R midpoint x ys) ≡ suc (length ys)
  unfolding insert_number
  length-insert_number x [] = refl
  length-insert_number x (y ∷ ys) = ground (arith, length-insert_number x ys)

  sorted_numbers-SameNumbers :
      (ns : List (F64 × String)) → SameNumbers (firsts ns) (sorted_numbers S R midpoint ns)
  unfolding sorted_numbers
  sorted_numbers-SameNumbers [] p = refl
  sorted_numbers-SameNumbers ((n, u) ∷ ns) p = omega (
    arith,
    passing-insert_number p n (sorted_numbers S R midpoint ns),
    sorted_numbers-SameNumbers ns p,
  )

  -- below what is inserted, and below the first of what was there
  insert_number-below :
      (z x : F64) (ys : List F64)
      → ((fle z x ≡ true) ⊎ (fle x z ≡ false))
      → InOrder (z ∷ ys)
      → InOrder (insert_number S R midpoint x ys)
      → InOrder (z ∷ insert_number S R midpoint x ys)
  unfolding insert_number
  insert_number-below z x [] b h i = (b, i)
  insert_number-below z x (y ∷ ys) b (c, h) i = elim (Bool-cases (fle x y)) [
    | inl e ↦ rw e (b, (inl e, h))
    | inr e ↦ rw e (
      c,
      subst (λ t. InOrder (if t then x ∷ y ∷ ys else y ∷ insert_number S R midpoint x ys)) e i,
    )
  ]

  tail_InOrder : (y : F64) (ys : List F64) → InOrder (y ∷ ys) → InOrder ys
  tail_InOrder y [] h = refl
  tail_InOrder y (z ∷ zs) (b, h) = h

  insert_number-InOrder :
      (x : F64) (ys : List F64) → InOrder ys → InOrder (insert_number S R midpoint x ys)
  unfolding insert_number
  insert_number-InOrder x [] h = refl
  insert_number-InOrder x (y ∷ ys) h = elim (Bool-cases (fle x y)) [
    | inl e ↦ rw e (inl e, h)
    | inr e ↦
        rw e
          (insert_number-below y x ys (inr e) h (insert_number-InOrder x ys (tail_InOrder y ys h)))
  ]

  sorted_numbers-InOrder : (ns : List (F64 × String)) → InOrder (sorted_numbers S R midpoint ns)
  unfolding sorted_numbers
  sorted_numbers-InOrder [] = refl
  sorted_numbers-InOrder ((n, u) ∷ ns) =
      insert_number-InOrder n (sorted_numbers S R midpoint ns) (sorted_numbers-InOrder ns)

  number_at-some :
      (xs : List F64) (i : ℕ) (x : F64) → get_elem? xs i ≡ some x → number_at S R midpoint xs i ≡ x
  number_at-some xs i x h = rw (h, number_at) refl

  median-IsMiddle : (xs : List F64) → 0 < length xs → IsMiddle xs (median S R midpoint xs)
  median-IsMiddle xs h =
      let k = length xs / 2 in
      elim (Bool-cases (length xs % 2 == 0)) [
        | inr e ↦
            let (x, g) = get_elem?-inside xs k (omega (arith, h)) in
            inl (
              k,
              ground (arith, e),
              g ∙ ap some (sym (number_at-some xs k x g) ∙ ground (arith, e)),
            )
        | inl e ↦
            let e2 : length xs % 2 ≡ 0 = ground (arith, e) in
            let (a, g) = get_elem?-inside xs (k - 1) (omega (arith, h)) in
            let (b, f) = get_elem?-inside xs k (omega (arith, h)) in
            inr (
              k - 1,
              a,
              b,
              ground (arith, e, h),
              g,
              subst (λ i. get_elem? xs i ≡ some b) (omega (arith, h, e2)) f,
              ap
                    (λ t.
                      if t
                      then midpoint (number_at S R midpoint xs (k - 1))
                          (number_at S R midpoint xs k)
                      else number_at S R midpoint xs k)
                    e
                  ∙ ap (λ x. midpoint x (number_at S R midpoint xs k))
                      (number_at-some xs (k - 1) a g)
                  ∙ ap (midpoint a) (number_at-some xs k b f),
            )
      ]

  pub median-IsMedian :
      (n : F64) (u : String) (ns : List (F64 × String))
      → IsMedian
          (firsts ((n, u) ∷ ns))
          (median S R midpoint (sorted_numbers S R midpoint ((n, u) ∷ ns)))
  unfolding sorted_numbers
  median-IsMedian n u ns =
      let zs = sorted_numbers S R midpoint ((n, u) ∷ ns) in
      (
        zs,
        sorted_numbers-SameNumbers ((n, u) ∷ ns),
        sorted_numbers-InOrder ((n, u) ∷ ns),
        median-IsMiddle zs (omega (arith, length-insert_number n (sorted_numbers S R midpoint ns))),
      )
