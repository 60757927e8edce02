-- ===== src/Effects/Report/Quiet.antt =====
-- When the report of crates/sniff-engine/src/effects.rs has no effect.
use sniff_css.Prelude.{
  ◌≡◌, refl, ◌∙◌, String, Bool, true, false, not, ◌&&◌, ◌||◌, Option, none, some, List, [], ◌∷◌,
  ◌++◌, arith, if◌then◌else◌, is_some, ◌==◌,
}
use sniff_css.Json.{Value, Serde}
use sniff_css.Json.Floats.{Floats}
use sniff_css.Effects.Geometry.{Plane}
use sniff_css.Effects.Signature.{signature_diff_keys}
use sniff_css.Effects.Records.{ElementRec, Recs, find_rec, is_root}
use sniff_css.Effects.Entries.{ActionTarget, is_empty_list, removed_entry, changed_entry}
use sniff_css.Effects.Report.{
  Effects, no_effects, count_visible, push_changed, xor, has_moved, compare_rec, visit, visit_after,
  visit_before, compare_maps,
}

pub is_empty_list-snoc : {A : Type 0} (xs : List A) (x : A) → is_empty_list (xs ++ x ∷ []) ≡ false
is_empty_list-snoc [] x = refl
is_empty_list-snoc (y ∷ xs) x = refl

module _ (S : Serde) (R : Floats S) (P : Plane S) where
  -- an element of both captures of which nothing is reported
  abbrev pub is_unchanged : ElementRec S → ElementRec S → Bool
  is_unchanged before rec =
      not (xor before.visible rec.visible)
      && (is_empty_list (signature_diff_keys S R P before.signature rec.signature (is_root S rec))
          && not (has_moved S R P before rec))

  abbrev pub is_unchanged_from : Option (ElementRec S) → ElementRec S → Bool
  is_unchanged_from none rec = false
  is_unchanged_from (some before) rec = is_unchanged before rec

  abbrev pub is_quiet : Effects S → Bool
  is_quiet s =
      is_empty_list s.appeared
      && (is_empty_list s.changed && (s.n_revealed == 0 && s.n_hidden == 0))

  abbrev pub all_unchanged : Recs S → Recs S → Bool
  all_unchanged before [] = true
  all_unchanged before (rec ∷ recs) =
      is_unchanged_from (find_rec S before rec.key) rec && all_unchanged before recs

  abbrev pub all_present : Recs S → Recs S → Bool
  all_present after [] = true
  all_present after (rec ∷ recs) = is_some (find_rec S after rec.key) && all_present after recs

  -- nothing in the lists, and no count
  abbrev pub is_nothing : Effects S → Bool
  is_nothing s = is_quiet s && is_empty_list s.removed

  is_quiet-pushed :
      (vc visible : Bool) (ps : List String) (moved : Bool) (o : Option (Value S.Number))
      (s : Effects S)
      → is_some o ≡ (vc || not (is_empty_list ps) || moved)
      → is_quiet (
          if vc || not (is_empty_list ps) || moved
          then push_changed S R P o (count_visible S R P vc visible s)
          else count_visible S R P vc visible s)
        ≡ (is_quiet s && (not vc && (is_empty_list ps && not moved)))
  is_quiet-pushed true true ps moved (some v) s h = ground (arith, is_empty_list-snoc s.changed v)
  is_quiet-pushed true false ps moved (some v) s h = ground (arith, is_empty_list-snoc s.changed v)
  is_quiet-pushed true visible ps moved none s h = absurd (ground (arith, h))
  is_quiet-pushed false visible [] true (some v) s h =
      ground (arith, is_empty_list-snoc s.changed v)
  is_quiet-pushed false visible [] true none s h = absurd (ground (arith, h))
  is_quiet-pushed false visible [] false o s h = ground arith
  is_quiet-pushed false visible (p ∷ ps) moved (some v) s h =
      ground (arith, is_empty_list-snoc s.changed v)
  is_quiet-pushed false visible (p ∷ ps) moved none s h = absurd (ground (arith, h))

  removed_pushed :
      (vc visible b : Bool) (o : Option (Value S.Number)) (s : Effects S)
      → (if b
          then push_changed S R P o (count_visible S R P vc visible s)
          else count_visible S R P vc visible s).removed
        ≡ s.removed
  removed_pushed false visible false o s = refl
  removed_pushed true true false o s = refl
  removed_pushed true false false o s = refl
  removed_pushed false visible true none s = refl
  removed_pushed false visible true (some v) s = refl
  removed_pushed true true true none s = refl
  removed_pushed true true true (some v) s = refl
  removed_pushed true false true none s = refl
  removed_pushed true false true (some v) s = refl

  is_nothing-removed :
      (found : Bool) (v : Value S.Number) (b : Bool) (s : Effects S)
      → (is_nothing (if found then s else record s { removed = s.removed ++ v ∷ [] }) && b)
        ≡ (is_nothing s && (found && b))
  is_nothing-removed true v b s = ground arith
  is_nothing-removed false v b s = ground (arith, is_empty_list-snoc s.removed v)

  module _ (target : ActionTarget S) (vw vh : S.F64) where
    is_some-changed_entry :
        (before rec : ElementRec S) (vc : Bool) (ps : List String) (moved : Bool)
        → is_some (changed_entry S R P target vw vh before rec vc ps moved)
          ≡ (vc || not (is_empty_list ps) || moved)
    unfolding changed_entry
    is_some-changed_entry before rec true ps moved = refl
    is_some-changed_entry before rec false [] true = refl
    is_some-changed_entry before rec false [] false = refl
    is_some-changed_entry before rec false (p ∷ ps) moved = refl

    compare_rec-is_quiet :
        (before rec : ElementRec S) (s : Effects S)
        → is_quiet (compare_rec S R P target vw vh before rec s)
          ≡ (is_quiet s && is_unchanged before rec)
    unfolding compare_rec
    compare_rec-is_quiet before rec s =
        let vc = xor before.visible rec.visible in
        let ps = signature_diff_keys S R P before.signature rec.signature (is_root S rec) in
        let moved = has_moved S R P before rec in
        is_quiet-pushed vc rec.visible ps moved
          (changed_entry S R P target vw vh before rec vc ps moved) s
          (is_some-changed_entry before rec vc ps moved)

    visit-is_quiet :
        (o : Option (ElementRec S)) (rec : ElementRec S) (s : Effects S)
        → is_quiet (visit S R P target vw vh o rec s) ≡ (is_quiet s && is_unchanged_from o rec)
    unfolding visit
    visit-is_quiet none rec s = ground (arith, is_empty_list-snoc s.appeared)
    visit-is_quiet (some before) rec s = compare_rec-is_quiet before rec s

    visit_after-is_quiet :
        (before recs : Recs S) (s : Effects S)
        → is_quiet (visit_after S R P target vw vh before recs s)
          ≡ (is_quiet s && all_unchanged before recs)
    unfolding visit_after
    visit_after-is_quiet before [] s = ground arith
    visit_after-is_quiet before (rec ∷ recs) s = ground (
      arith,
      visit_after-is_quiet before recs (visit S R P target vw vh (find_rec S before rec.key) rec s),
      visit-is_quiet (find_rec S before rec.key) rec s,
    )

    visit-removed :
        (o : Option (ElementRec S)) (rec : ElementRec S) (s : Effects S)
        → (visit S R P target vw vh o rec s).removed ≡ s.removed
    unfolding visit compare_rec
    visit-removed none rec s = refl
    visit-removed (some before) rec s =
        let vc = xor before.visible rec.visible in
        let ps = signature_diff_keys S R P before.signature rec.signature (is_root S rec) in
        let moved = has_moved S R P before rec in
        removed_pushed vc rec.visible (vc || not (is_empty_list ps) || moved)
          (changed_entry S R P target vw vh before rec vc ps moved) s

    visit_after-removed :
        (before recs : Recs S) (s : Effects S)
        → (visit_after S R P target vw vh before recs s).removed ≡ s.removed
    unfolding visit_after
    visit_after-removed before [] s = refl
    visit_after-removed before (rec ∷ recs) s =
        visit_after-removed before recs (visit S R P target vw vh (find_rec S before rec.key) rec s)
        ∙ visit-removed (find_rec S before rec.key) rec s

    visit_before-is_nothing :
        (after recs : Recs S) (s : Effects S)
        → is_nothing (visit_before S R P target vw vh after recs s)
          ≡ (is_nothing s && all_present after recs)
    unfolding visit_before
    visit_before-is_nothing after [] s = ground arith
    visit_before-is_nothing after (rec ∷ recs) s =
        let v = removed_entry S R P target vw vh rec in
        let found = is_some (find_rec S after rec.key) in
        visit_before-is_nothing after recs
          (if found then s else record s { removed = s.removed ++ v ∷ [] })
        ∙ is_nothing-removed found v (all_present after recs) s

    pub compare_maps-is_nothing :
        (before after : Recs S)
        → is_nothing (compare_maps S R P target vw vh before after)
          ≡ (all_unchanged before after && all_present after before)
    unfolding compare_maps
    compare_maps-is_nothing before after =
        let s = visit_after S R P target vw vh before after (no_effects S R P) in
        visit_before-is_nothing after before s
        ∙ ground (
          arith,
          visit_after-is_quiet before after (no_effects S R P),
          visit_after-removed before after (no_effects S R P),
        )
