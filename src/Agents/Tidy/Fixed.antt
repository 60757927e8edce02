-- ===== src/Agents/Tidy/Fixed.antt =====
-- A text that has been tidied stays as it is.
use Prim.Native.Char.{Char}
use Prim.Native.String.{char_at}
use sniff_css.Prelude.{
  ℕ, ◌≡◌, refl, ap, ◌∙◌, subst, ◌↔◌, String, Bool, true, false, not, ◌&&◌, leb, ltb, if◌then◌else◌,
  str_eq, eq_iff, saturating_add, arith, min, Bool-cases, inl, inr, and_left, and_right, and_true,
}
use sniff_css.Agents.Tidy.{is_newline, collapse_newlines, pop_newlines, end_line, tidy}

-- no run of line ends is longer than two, with some that stand in front
abbrev pub fits : ℕ → String → Bool
fits n String.[] = true
fits n (String.◌∷◌ c s) = if is_newline c then ltb n 2 && fits (saturating_add n 1) s else fits 0 s

-- no two line ends at the end
abbrev pub is_trimmed : String → Bool
is_trimmed String.[] = true
is_trimmed (String.◌∷◌ c s) = not (is_newline c && str_eq s "\n") && is_trimmed s

collapse_newlines-fits :
    (n p : ℕ) (s : String) → n ≡ min p 2 → fits n (collapse_newlines p s) ≡ true
unfolding collapse_newlines
collapse_newlines-fits n p String.[] h = refl
collapse_newlines-fits n p (String.◌∷◌ c s) h = elim (Bool-cases (is_newline c)) [
  | inr e ↦ rw e (ground (arith, e, collapse_newlines-fits 0 0 s refl))
  | inl e ↦ elim (Bool-cases (leb (saturating_add p 1) 2)) [
    | inl l ↦
        rw (e, l)
          (ground (
            arith,
            e,
            h,
            l,
            collapse_newlines-fits (saturating_add n 1) (saturating_add p 1) s
                (ground (arith, h, l)),
          ))
    | inr l ↦ rw (e, l) (collapse_newlines-fits n (saturating_add p 1) s (ground (arith, h, l)))
  ]
]

collapse_newlines-fixed : (n : ℕ) (s : String) → fits n s ≡ true → collapse_newlines n s ≡ s
unfolding collapse_newlines
collapse_newlines-fixed n String.[] h = refl
collapse_newlines-fixed n (String.◌∷◌ c s) h = elim (Bool-cases (is_newline c)) [
  | inl e ↦
      let b : (ltb n 2 && fits (saturating_add n 1) s) ≡ true = ground (arith, h, e) in
      let few : ltb n 2 ≡ true = and_left (ltb n 2) (fits (saturating_add n 1) s) b in
      let rest : fits (saturating_add n 1) s ≡ true =
        and_right (ltb n 2) (fits (saturating_add n 1) s) b in
      ground (arith, e, few, collapse_newlines-fixed (saturating_add n 1) s rest)
  | inr e ↦ ground (arith, e, collapse_newlines-fixed 0 s (ground (arith, h, e)))
]

pop_newlines-fits : (n : ℕ) (s : String) → fits n s ≡ true → fits n (pop_newlines s) ≡ true
unfolding pop_newlines
pop_newlines-fits n String.[] h = refl
pop_newlines-fits n (String.◌∷◌ c s) h = elim (Bool-cases (is_newline c)) [
  | inl e ↦
      let b : (ltb n 2 && fits (saturating_add n 1) s) ≡ true = ground (arith, h, e) in
      let few : ltb n 2 ≡ true = and_left (ltb n 2) (fits (saturating_add n 1) s) b in
      let rest : fits (saturating_add n 1) s ≡ true =
        and_right (ltb n 2) (fits (saturating_add n 1) s) b in
      elim (Bool-cases (str_eq (pop_newlines s) "\n")) [
        | inl l ↦ rw (e, l, (eq_iff (pop_newlines s) "\n").0 l) (ground (arith, few))
        | inr l ↦ rw (e, l) (ground (arith, e, few, pop_newlines-fits (saturating_add n 1) s rest))
      ]
  | inr e ↦ rw e (ground (arith, e, pop_newlines-fits 0 s (ground (arith, h, e))))
]

end_line-fits : (n : ℕ) (s : String) → fits n s ≡ true → fits n (end_line s) ≡ true
unfolding end_line
end_line-fits n String.[] h = refl
end_line-fits n (String.◌∷◌ c String.[]) h = ground (arith, h)
end_line-fits n (String.◌∷◌ c (String.◌∷◌ d s)) h = elim (Bool-cases (is_newline c)) [
  | inl e ↦
      let b : (ltb n 2 && fits (saturating_add n 1) (String.◌∷◌ d s)) ≡ true =
        ground (arith, h, e) in
      rw e (
        and_true _ _ (and_left _ _ b)
          (end_line-fits (saturating_add n 1) (String.◌∷◌ d s) (and_right _ _ b)))
  | inr e ↦ rw e (end_line-fits 0 (String.◌∷◌ d s) (ground (arith, h, e)))
]

is_trimmed-pop_newlines : (s : String) → is_trimmed (pop_newlines s) ≡ true
unfolding pop_newlines
is_trimmed-pop_newlines String.[] = refl
is_trimmed-pop_newlines (String.◌∷◌ c s) =
    elim (Bool-cases (is_newline c && str_eq (pop_newlines s) "\n")) [
      | inl e ↦ rw e (is_trimmed-pop_newlines s)
      | inr e ↦ rw e (ground (arith, e, is_trimmed-pop_newlines s))
    ]

kept : (b : Bool) (s t : String) → not b ≡ true → (if b then s else t) ≡ t
kept true s t h = absurd (ground (arith, h))
kept false s t h = refl

pop_newlines-fixed : (s : String) → is_trimmed s ≡ true → pop_newlines s ≡ s
unfolding pop_newlines
pop_newlines-fixed String.[] h = refl
pop_newlines-fixed (String.◌∷◌ c s) h =
    let front : not (is_newline c && str_eq s "\n") ≡ true = and_left _ _ h in
    let rest : is_trimmed s ≡ true = and_right _ _ h in
    rw (pop_newlines-fixed s rest) (kept (is_newline c && str_eq s "\n") s (String.◌∷◌ c s) front)

abbrev is_long : String → Bool
is_long String.[] = false
is_long (String.◌∷◌ c String.[]) = false
is_long (String.◌∷◌ c (String.◌∷◌ d s)) = true

not_single : (c d : Char) (s : String) → str_eq (String.◌∷◌ c (String.◌∷◌ d s)) "\n" ≡ false
not_single c d s = elim (Bool-cases (str_eq (String.◌∷◌ c (String.◌∷◌ d s)) "\n")) [
  | inl e ↦ absurd (ground (arith, ap is_long ((eq_iff (String.◌∷◌ c (String.◌∷◌ d s)) "\n").0 e)))
  | inr e ↦ e
]

not_single_line :
    (c d : Char) (s : String) → str_eq (String.◌∷◌ c (end_line (String.◌∷◌ d s))) "\n" ≡ false
unfolding end_line
not_single_line c d String.[] = elim (Bool-cases (is_newline d)) [
  | inl e ↦ rw e (not_single c d "")
  | inr e ↦ rw e (not_single c d "\n")
]
not_single_line c d (String.◌∷◌ e s) = not_single c d (end_line (String.◌∷◌ e s))

-- what ends up as a single line end was one
not_line :
    (c d : Char) (s : String)
    → not (is_newline c && str_eq (String.◌∷◌ d s) "\n") ≡ true
    → not (is_newline c && str_eq (end_line (String.◌∷◌ d s)) "\n") ≡ true
unfolding end_line
not_line c d String.[] h = elim (Bool-cases (is_newline d)) [
  | inl e ↦ rw e h
  | inr e ↦ rw (e, not_single d (char_at "\n" 0) "") (ground arith)
]
not_line c d (String.◌∷◌ e s) h = rw (not_single_line d e s) (ground arith)

is_trimmed-end_line : (s : String) → is_trimmed s ≡ true → is_trimmed (end_line s) ≡ true
unfolding end_line
is_trimmed-end_line String.[] h = refl
is_trimmed-end_line (String.◌∷◌ c String.[]) h = ground arith
is_trimmed-end_line (String.◌∷◌ c (String.◌∷◌ d s)) h =
    and_true _ _ (not_line c d s (and_left _ _ h))
      (is_trimmed-end_line (String.◌∷◌ d s) (and_right _ _ h))

-- a line end at the end
abbrev pub is_ended : String → Bool
is_ended String.[] = true
is_ended (String.◌∷◌ c String.[]) = is_newline c
is_ended (String.◌∷◌ c (String.◌∷◌ d s)) = is_ended (String.◌∷◌ d s)

end_line-fixed : (s : String) → is_ended s ≡ true → end_line s ≡ s
unfolding end_line
end_line-fixed String.[] h = refl
end_line-fixed (String.◌∷◌ c String.[]) h = rw h refl
end_line-fixed (String.◌∷◌ c (String.◌∷◌ d s)) h =
    ap (String.◌∷◌ c) (end_line-fixed (String.◌∷◌ d s) h)

is_ended_behind :
    (c d : Char) (s : String)
    → is_ended (end_line (String.◌∷◌ d s)) ≡ true
    → is_ended (String.◌∷◌ c (end_line (String.◌∷◌ d s))) ≡ true
unfolding end_line
is_ended_behind c d String.[] h = elim (Bool-cases (is_newline d)) [
  | inl e ↦ rw e (rw e refl)
  | inr e ↦ rw e refl
]
is_ended_behind c d (String.◌∷◌ e s) h = h

is_ended-end_line : (s : String) → is_ended (end_line s) ≡ true
unfolding end_line
is_ended-end_line String.[] = refl
is_ended-end_line (String.◌∷◌ c String.[]) = elim (Bool-cases (is_newline c)) [
  | inl e ↦ rw e (rw e refl)
  | inr e ↦ rw e refl
]
is_ended-end_line (String.◌∷◌ c (String.◌∷◌ d s)) =
    is_ended_behind c d s (is_ended-end_line (String.◌∷◌ d s))

-- no more than two line ends in a row, not two of them at the end, and one there unless empty
abbrev pub IsTidy : String → Type 0
IsTidy s = (fits 0 s ≡ true) × (is_trimmed s ≡ true) × (is_ended s ≡ true)

tidy-IsTidy : (text : String) → IsTidy (tidy text)
unfolding tidy
tidy-IsTidy text =
    let c = collapse_newlines 0 text in
    let t = pop_newlines c in
    (
      end_line-fits 0 t (pop_newlines-fits 0 c (collapse_newlines-fits 0 0 text refl)),
      is_trimmed-end_line t (is_trimmed-pop_newlines c),
      is_ended-end_line t,
    )

IsTidy-tidy : (text : String) → IsTidy text → tidy text ≡ text
unfolding tidy
IsTidy-tidy text (f, t, e) =
    ap (λ s. end_line (pop_newlines s)) (collapse_newlines-fixed 0 text f)
    ∙ ap end_line (pop_newlines-fixed text t)
    ∙ end_line-fixed text e

-- The texts that tidying leaves as they are, are exactly those that have no more than two line ends
-- in a row, do not end in two of them, and end in one unless they are empty.
pub tidy-IsTidy_iff : (text : String) → (tidy text ≡ text) ↔ IsTidy text
tidy-IsTidy_iff text = (λ e. subst IsTidy e (tidy-IsTidy text), IsTidy-tidy text)

-- Tidying a text that has been tidied changes nothing.
tidy-tidy : (text : String) → tidy (tidy text) ≡ tidy text
tidy-tidy text = (tidy-IsTidy_iff (tidy text)).1 (tidy-IsTidy text)
