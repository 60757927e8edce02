-- ===== src/Check/Occlusion.antt =====
-- `check_occlusion` of crates/sniff-css-check/src/rules.rs.
pub mod Shown
pub mod Covers
use sniff_css.Prelude.{
  ℕ, String, Bool, true, false, ◌&&◌, not, Option, none, some, List, [], ◌∷◌, ltb, ◌==◌, decimal,
  if◌then◌else◌, get_elem?, is_some,
}
use Prim.Native.String.{◌++◌ as str_append}
use sniff_css.Json.{Serde}
use sniff_css.Model.{DiffNode, Forest, info}
use sniff_css.Json.Floats.{Floats, f64_to_u32}
use sniff_css.Check.Nodes.{
  RuleStatus, warn, fail, CheckLine, Rect, is_bool, is_opaque_zero, display_visible,
}
use sniff_css.Check.Flatten.{Flat, flattened, related}
use sniff_css.Check.Stacking.{same_svg_container, paints_above}

module _ (S : Serde) where
  open S use {Number, F64, fmax, fle, flt, zero}

  -- an entry of the `BTreeMap`: the covered index, and the index and coverage of its coverer
  pub record Cover : Type 0 where
    pub who : ℕ
    pub by : ℕ
    pub coverage : F64

  abbrev pub get_cover : List Cover → ℕ → Option Cover
  get_cover [] k = none
  get_cover (c ∷ cs) k = if c.who == k then some c else get_cover cs k

  -- the entries stand in ascending order of their keys
  unfoldable pub insert_cover : List Cover → Cover → List Cover
  insert_cover [] c = c ∷ []
  insert_cover (d ∷ ds) c =
      let rest = insert_cover ds c in
      if d.who == c.who then c ∷ ds else if ltb c.who d.who then c ∷ d ∷ ds else d ∷ rest

  unfoldable pub record_cover : List Cover → ℕ → ℕ → F64 → List Cover
  unfolding insert_cover
  record_cover covered who by cov = elim (get_cover covered who) [
    | some best ↦
        if fle cov best.coverage
        then covered
        else insert_cover covered (record { who = who; by = by; coverage = cov })
    | none ↦ insert_cover covered (record { who = who; by = by; coverage = cov })
  ]

  -- the filter of the candidates
  abbrev pub is_candidate : Flat S → Bool
  is_candidate f =
      is_some f.rect
      && (not (is_bool (display_visible S f.node_of) false) && not (is_opaque_zero S f.node_of))

  unfoldable pub candidates : List (Flat S) → List (Flat S)
  candidates [] = []
  candidates (f ∷ fs) = let rest = candidates fs in if is_candidate f then f ∷ rest else rest

  abbrev pub left_of : Flat S → F64
  left_of f = elim f.rect [ none ↦ zero | some r ↦ r.x ]

  module _ (R : Floats S) where
    open R use {add, mul, div, fmin, total_le, hundredths}

    unfoldable pub insert_by_x : Flat S → List (Flat S) → List (Flat S)
    insert_by_x f [] = f ∷ []
    insert_by_x f (g ∷ gs) =
        let rest = insert_by_x f gs in
        if total_le (left_of f) (left_of g) then f ∷ g ∷ gs else g ∷ rest

    -- the stable `sort_by` with `total_cmp`
    unfoldable pub sort_by_x : List (Flat S) → List (Flat S)
    unfolding insert_by_x
    sort_by_x [] = []
    sort_by_x (f ∷ fs) = insert_by_x f (sort_by_x fs)

    -- the overlap of two rectangles, unless it is empty
    unfoldable pub intersection : Rect S → Rect S → Option F64
    intersection a b =
        let ix0 = fmax a.x b.x in
        let ix1 = fmin (add a.x a.w) (add b.x b.w) in
        let iy0 = fmax a.y b.y in
        let iy1 = fmin (add a.y a.h) (add b.y b.h) in
        if fle ix1 ix0
        then none
        else if fle iy1 iy0
        then none
        else some (mul (S.sub ix1 ix0) (S.sub iy1 iy0))

    -- `if cov >= 0.5 && paints_above(over, under) { record_cover(..) }`
    unfoldable pub cover_if : List (Flat S) → Flat S → Flat S → F64 → List Cover → List Cover
    unfolding record_cover paints_above
    cover_if flat under over cov covered =
        if fle (hundredths 50) cov && paints_above S R flat over under
        then record_cover covered under.idx over.idx cov
        else covered

    -- the end of a round, after the guards
    abbrev pub cover_both :
        List (Flat S) → Flat S → Flat S → Rect S → Rect S → F64 → List Cover → List Cover
    cover_both flat fi fj ri rj inter covered =
        cover_if flat fj fi (div inter (mul rj.w rj.h))
          (cover_if flat fi fj (div inter (mul ri.w ri.h)) covered)

    abbrev pub compare_pair :
        List (Flat S) → Flat S → Flat S → Rect S → Rect S → List Cover → List Cover
    compare_pair flat fi fj ri rj covered = elim (intersection ri rj) [
      | none ↦ covered
      | some inter ↦
          if related S fi fj
          then covered
          else if same_svg_container S flat fi fj
          then covered
          else cover_both flat fi fj ri rj inter covered
    ]

    -- the inner loop, which ends at the first candidate right of `fi`
    unfoldable pub sweep_from :
        List (Flat S) → Flat S → Rect S → List (Flat S) → List Cover → List Cover
    unfolding intersection cover_if same_svg_container
    sweep_from flat fi ri [] covered = covered
    sweep_from flat fi ri (fj ∷ fjs) covered =
        let skipped = sweep_from flat fi ri fjs covered in
        elim fj.rect [
          | none ↦ skipped
          | some rj ↦
              let compared = sweep_from flat fi ri fjs (compare_pair flat fi fj ri rj covered) in
              if fle (add ri.x ri.w) rj.x then covered else compared
        ]

    unfoldable pub sweep : List (Flat S) → List (Flat S) → List Cover → List Cover
    unfolding sweep_from
    sweep flat [] covered = covered
    sweep flat (fi ∷ fis) covered = elim fi.rect [
      | none ↦ sweep flat fis covered
      | some ri ↦ sweep flat fis (sweep_from flat fi ri fis covered)
    ]

    abbrev pub occluded_line : Flat S → Flat S → F64 → CheckLine
    occluded_line fk fc cover = record {
      check = "occluded";
      selector = (info fk.node_of).selector;
      tag = (info fk.node_of).tag;
      status = if fle (hundredths 75) cover then fail else warn;
      evidence = str_append (decimal (f64_to_u32 S R (mul cover (hundredths 10000)))) (
          str_append "% of " (
            str_append (info fk.node_of).selector (
              str_append " is covered by " (
                str_append (info fc.node_of).selector
                  " — the element is visually behind an overlapping element"))));
    }

    abbrev occluded_at : Option (Flat S) → Option (Flat S) → F64 → List CheckLine → List CheckLine
    occluded_at (some fk) (some fc) cover rest = occluded_line fk fc cover ∷ rest
    occluded_at _ _ cover rest = rest

    unfoldable pub occluded_lines : List (Flat S) → List Cover → List CheckLine
    occluded_lines flat [] = []
    occluded_lines flat (c ∷ cs) =
        occluded_at (get_elem? flat c.who) (get_elem? flat c.by) c.coverage (occluded_lines flat cs)

    -- what the sweep finds in a forest
    unfoldable pub covers : List (Flat S) → List Cover
    unfolding sweep sort_by_x candidates
    covers flat = sweep flat (sort_by_x (candidates flat)) []

    unfoldable pub check_occlusion : Forest Number → List CheckLine
    unfolding covers occluded_lines flattened
    check_occlusion nodes = let flat = flattened S nodes in occluded_lines flat (covers flat)
