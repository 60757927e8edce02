-- ===== src/Check/Occlusion/Covers.antt =====
-- What `check_occlusion` may report: every cover is justified by a pair of candidates.
use sniff_css.Prelude.{
  ℕ, ◌≡◌, refl, true, false, Option, none, some, List, [], ◌∷◌, arith, ◌==◌, if◌then◌else◌,
  Bool-cases, Option-cases, inl, inr, subst, sym, ◌⊎◌,
}
use mathlib.Core.Option.{some-injective}
use sniff_css.Json.{Serde}
use sniff_css.Json.Floats.{Floats}
use sniff_css.Check.Nodes.{Rect}
use sniff_css.Check.Flatten.{Flat, related}
use sniff_css.Check.Stacking.{paints_above, same_svg_container}
use sniff_css.Check.Occlusion.{
  Cover, get_cover, insert_cover, record_cover, cover_if, cover_both, compare_pair, intersection,
  sweep_from, sweep, covers, sort_by_x, candidates,
}
use sniff_css.Check.Occlusion.Shown.{
  IsShown, Within, Within-tail, candidates-Within, sort_by_x-Within,
}

module _ (S : Serde) where
  get_cover-insert_cover :
      (cs : List (Cover S)) (c : Cover S) (k : ℕ)
      → get_cover S (insert_cover S cs c) k ≡ (if c.who == k then some c else get_cover S cs k)
  unfolding insert_cover
  get_cover-insert_cover [] c k = refl
  get_cover-insert_cover (d ∷ ds) c k = ground (arith, get_cover-insert_cover ds c k)

  -- the better of a cover and one that may be there
  abbrev pub better : Cover S → Option (Cover S) → Cover S
  better c none = c
  better c (some best) = if S.fle c.coverage best.coverage then best else c

  -- After a cover has been recorded, its element has the one of higher coverage, the one that was
  -- there first if neither is higher, and every other element has what it had.
  pub get_cover-record_cover :
      (cs : List (Cover S)) (who by k : ℕ) (cov : S.F64)
      → get_cover S (record_cover S cs who by cov) k ≡ (
          if who == k
          then some (better (record { who = who; by = by; coverage = cov }) (get_cover S cs k))
          else get_cover S cs k)
  unfolding record_cover
  get_cover-record_cover cs who by k cov =
      let new : Cover S = record { who = who; by = by; coverage = cov } in
      elim (Option-cases (get_cover S cs who)) [
        | inl e ↦ rw (e, record_cover) (ground (arith, get_cover-insert_cover cs new k, e))
        | inr (best, e) ↦ elim (Bool-cases (S.fle cov best.coverage)) [
          | inl l ↦ rw (e, record_cover) (ground (arith, e, l))
          | inr l ↦ rw (e, record_cover) (ground (arith, e, l, get_cover-insert_cover cs new k))
        ]
      ]

  related_comm : (a b : Flat S) → related S a b ≡ related S b a
  related_comm a b = ground arith

  module _ (R : Floats S) where
    -- the edges of a box
    abbrev pub right : Rect S → S.F64
    right r = R.add r.x r.w

    abbrev pub bottom : Rect S → S.F64
    bottom r = R.add r.y r.h

    -- the width and the height that two boxes share
    abbrev pub shared_width : Rect S → Rect S → S.F64
    shared_width a b = S.sub (R.fmin (right a) (right b)) (S.fmax a.x b.x)

    abbrev pub shared_height : Rect S → Rect S → S.F64
    shared_height a b = S.sub (R.fmin (bottom a) (bottom b)) (S.fmax a.y b.y)

    -- the boxes share more than an edge
    abbrev pub Overlap : Rect S → Rect S → Type 0
    Overlap a b =
        (S.fle (R.fmin (right a) (right b)) (S.fmax a.x b.x) ≡ false)
        × (S.fle (R.fmin (bottom a) (bottom b)) (S.fmax a.y b.y) ≡ false)

    -- A cover says that the second entry paints above the first, whose box is given, and that the
    -- shared area is the given part of this box, and at least a half of it.
    abbrev pub Covered : List (Flat S) → Flat S → Flat S → Rect S → S.F64 → Cover S → Type 0
    Covered flat under over box area c =
        (c.who ≡ under.idx)
        × (c.by ≡ over.idx)
        × (paints_above S R flat over under ≡ true)
        × (c.coverage ≡ R.div area (R.mul box.w box.h))
        × (S.fle (R.hundredths 50) c.coverage ≡ true)

    -- A cover is justified in a list of entries if there are two of them, both shown, with boxes that
    -- overlap, of which neither lies in the subtree of the other and which are not in one svg, and one
    -- of them is covered by the other as the cover says.
    abbrev pub Justified : List (Flat S) → Cover S → Type 0
    Justified flat c =
        (a : Flat S) × (b : Flat S) × (ra : Rect S) × (rb : Rect S) × IsShown S flat a
        × IsShown S flat b
        × (a.rect ≡ some ra)
        × (b.rect ≡ some rb)
        × Overlap ra rb
        × (related S a b ≡ false)
        × (same_svg_container S flat a b ≡ false)
        × (Covered flat a b ra (R.mul (shared_width ra rb) (shared_height ra rb)) c
            ⊎ Covered flat b a rb (R.mul (shared_width ra rb) (shared_height ra rb)) c)

    abbrev AllJustified : List (Flat S) → List (Cover S) → Type 0
    AllJustified flat cs = (k : ℕ) (c : Cover S) → get_cover S cs k ≡ some c → Justified flat c

    insert_cover-AllJustified :
        (flat : List (Flat S)) (cs : List (Cover S)) (c : Cover S)
        → Justified flat c
        → AllJustified flat cs
        → AllJustified flat (insert_cover S cs c)
    insert_cover-AllJustified flat cs c j all k d h = elim (Bool-cases (c.who == k)) [
      | inl e ↦
          subst (Justified flat)
            (some-injective _ _ (ground (arith, get_cover-insert_cover cs c k, h, e))) j
      | inr e ↦ all k d (ground (arith, get_cover-insert_cover cs c k, h, e))
    ]

    record_cover-AllJustified :
        (flat : List (Flat S)) (cs : List (Cover S)) (who by : ℕ) (cov : S.F64)
        → Justified flat (record { who = who; by = by; coverage = cov })
        → AllJustified flat cs
        → AllJustified flat (record_cover S cs who by cov)
    unfolding record_cover
    record_cover-AllJustified flat cs who by cov j all = elim (Option-cases (get_cover S cs who)) [
      | inl e ↦ rw (e, record_cover) (insert_cover-AllJustified flat cs _ j all)
      | inr (best, e) ↦ elim (Bool-cases (S.fle cov best.coverage)) [
        | inl l ↦ rw (e, record_cover) (rw l all)
        | inr l ↦ rw (e, record_cover) (rw l (insert_cover-AllJustified flat cs _ j all))
      ]
    ]

    cover_if-AllJustified :
        (flat : List (Flat S)) (under over : Flat S) (box : Rect S) (area : S.F64)
        (cs : List (Cover S))
        → ((c : Cover S) → Covered flat under over box area c → Justified flat c)
        → AllJustified flat cs
        → AllJustified flat (cover_if S R flat under over (R.div area (R.mul box.w box.h)) cs)
    unfolding cover_if
    cover_if-AllJustified flat under over box area cs f all =
        let cov = R.div area (R.mul box.w box.h) in
        elim (Bool-cases (S.fle (R.hundredths 50) cov)) [
          | inr e ↦ rw e all
          | inl e ↦ elim (Bool-cases (paints_above S R flat over under)) [
            | inr p ↦ rw e (rw p all)
            | inl p ↦ rw e (
                rw p (
                  record_cover-AllJustified flat cs under.idx over.idx cov
                    (f (record { who = under.idx; by = over.idx; coverage = cov })
                      (refl, refl, p, refl, e))
                    all))
          ]
        ]

    -- the intersection is the shared area of boxes that overlap
    intersection-some :
        (a b : Rect S) (inter : S.F64)
        → intersection S R a b ≡ some inter
        → Overlap a b × (inter ≡ R.mul (shared_width a b) (shared_height a b))
    unfolding intersection
    intersection-some a b inter h =
        elim (Bool-cases (S.fle (R.fmin (right a) (right b)) (S.fmax a.x b.x))) [
          | inl e ↦ absurd (ground (arith, h, e))
          | inr e ↦ elim (Bool-cases (S.fle (R.fmin (bottom a) (bottom b)) (S.fmax a.y b.y))) [
            | inl g ↦ absurd (ground (arith, h, e, g))
            | inr g ↦ ((e, g), ground (arith, h, e, g))
          ]
        ]

    compare_pair-AllJustified :
        (flat : List (Flat S)) (fi fj : Flat S) (ri rj : Rect S) (cs : List (Cover S))
        → IsShown S flat fi
        → IsShown S flat fj
        → fi.rect ≡ some ri
        → fj.rect ≡ some rj
        → AllJustified flat cs
        → AllJustified flat (compare_pair S R flat fi fj ri rj cs)
    compare_pair-AllJustified flat fi fj ri rj cs ii ij qi qj all =
        elim (Option-cases (intersection S R ri rj)) [
          | inl e ↦ rw (e, compare_pair) all
          | inr (inter, e) ↦ elim (Bool-cases (related S fi fj)) [
            | inl r ↦ rw (e, compare_pair) (rw r all)
            | inr r ↦ elim (Bool-cases (same_svg_container S flat fi fj)) [
              | inl v ↦ rw (e, compare_pair) (rw r (rw v all))
              | inr v ↦
                  let (o, q) = intersection-some ri rj inter e in
                  let area = R.mul (shared_width ri rj) (shared_height ri rj) in
                  rw (e, compare_pair)
                    (rw r (
                      rw v (
                        subst (λ x. AllJustified flat (cover_both S R flat fi fj ri rj x cs))
                          (sym q)
                          (cover_if-AllJustified flat fj fi rj area _
                            (λ c d. (fi, fj, ri, rj, ii, ij, qi, qj, o, r, v, inr d))
                            (cover_if-AllJustified flat fi fj ri area cs
                              (λ c d. (fi, fj, ri, rj, ii, ij, qi, qj, o, r, v, inl d)) all)))))
            ]
          ]
        ]

    sweep_from-AllJustified :
        (flat : List (Flat S)) (fi : Flat S) (ri : Rect S) (fjs : List (Flat S))
        (cs : List (Cover S))
        → IsShown S flat fi
        → fi.rect ≡ some ri
        → Within S (IsShown S flat) fjs
        → AllJustified flat cs
        → AllJustified flat (sweep_from S R flat fi ri fjs cs)
    unfolding sweep_from
    sweep_from-AllJustified flat fi ri [] cs i q w all = all
    sweep_from-AllJustified flat fi ri (fj ∷ fjs) cs i q w all = elim (Option-cases fj.rect) [
      | inl e ↦ rw e (
          sweep_from-AllJustified flat fi ri fjs cs i q (Within-tail S (IsShown S flat) fjs fj w)
            all)
      | inr (rj, e) ↦ elim (Bool-cases (S.fle (R.add ri.x ri.w) rj.x)) [
        | inl b ↦ rw e (rw b all)
        | inr b ↦ rw e (
            rw b (
              sweep_from-AllJustified flat fi ri fjs (compare_pair S R flat fi fj ri rj cs) i q
                (Within-tail S (IsShown S flat) fjs fj w)
                (compare_pair-AllJustified flat fi fj ri rj cs i (w 0 fj refl) q e all)))
      ]
    ]

    sweep-AllJustified :
        (flat fis : List (Flat S)) (cs : List (Cover S))
        → Within S (IsShown S flat) fis
        → AllJustified flat cs
        → AllJustified flat (sweep S R flat fis cs)
    unfolding sweep
    sweep-AllJustified flat [] cs w all = all
    sweep-AllJustified flat (fi ∷ fis) cs w all = elim (Option-cases fi.rect) [
      | inl e ↦ rw e (sweep-AllJustified flat fis cs (Within-tail S (IsShown S flat) fis fi w) all)
      | inr (ri, e) ↦ rw e (
          sweep-AllJustified flat fis _ (Within-tail S (IsShown S flat) fis fi w) (
            sweep_from-AllJustified flat fi ri fis cs (w 0 fi refl) e
              (Within-tail S (IsShown S flat) fis fi w) all))
    ]

    -- Whatever `check_occlusion` reports as covered is justified: there are two elements of the page
    -- with boxes that overlap, not hidden or transparent, of which neither lies in the subtree of the
    -- other and which are not in one svg, one paints above the other, and the coverage is the shared
    -- area divided by the area of the covered one, and at least a half.
    pub covers-Justified :
        (flat : List (Flat S)) (k : ℕ) (c : Cover S)
        → get_cover S (covers S R flat) k ≡ some c
        → Justified flat c
    unfolding covers
    covers-Justified flat k c h =
        sweep-AllJustified flat (sort_by_x S R (candidates S flat)) []
          (sort_by_x-Within S R (IsShown S flat) _
            (candidates-Within S flat flat (λ j f e. (j, e))))
          (λ k c e. absurd (ground (arith, e))) k c h
