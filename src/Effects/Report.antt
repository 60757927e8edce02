-- ===== src/Effects/Report.antt =====
-- `diff` of crates/sniff-engine/src/effects.rs: the report of an action.
pub mod Summary
pub mod Ranks
pub mod Quiet
pub mod Shown
pub mod Unchanged
pub mod Self
use sniff_css.Prelude.{
  ℕ, zero, suc, ◌+◌, String, Bool, true, false, not, ◌&&◌, ◌||◌, Option, none, some, List, [], ◌∷◌,
  ◌++◌, map, if◌then◌else◌, is_some, ltb, saturating_add, length, str_eq,
}
use sniff_css.Json.{
  Value, null, bool, number, string, array, object, Map, empty, is_empty, Serde, list_to_items,
}
use sniff_css.Json.Floats.{Floats}
use sniff_css.Output.Snapshots.{Fields, put_fields}
use sniff_css.Output.Nodes.{when}
use sniff_css.Effects.Geometry.{Plane, Quad, rect_delta, rect_to_json, rect_onscreen}
use sniff_css.Effects.Signature.{effect_signature_props, signature_diff_keys}
use sniff_css.Effects.Records.{
  ElementRec, Recs, find_rec, keyed, is_root, parse_elements, parse_viewport,
}
use sniff_css.Effects.Entries.{
  ActionTarget, is_empty_list, appeared_entry, removed_entry, changed_entry,
}
use Summary.{
  Action, action_kind, action_selector, action_timeout_ms, action_settle_ms, Effect, effect_name,
  classify_effect, build_summary, first,
}
use Ranks.{limited, ranked, ranked_changes}

-- the variables of the loops
pub record Effects (S : Serde) : Type 0 where
  pub appeared : List (Value S.Number)
  pub removed : List (Value S.Number)
  pub changed : List (Value S.Number)
  pub n_revealed : ℕ
  pub n_hidden : ℕ

abbrev pub xor : Bool → Bool → Bool
xor true b = not b
xor false b = b

module _ (S : Serde) (R : Floats S) (P : Plane S) where
  open S use {Number, from_usize}

  abbrev pub no_effects : Effects S
  no_effects = record { appeared = []; removed = []; changed = []; n_revealed = 0; n_hidden = 0 }

  abbrev pub count_visible : Bool → Bool → Effects S → Effects S
  count_visible false visible s = s
  count_visible true true s = record s { n_revealed = saturating_add s.n_revealed 1 }
  count_visible true false s = record s { n_hidden = saturating_add s.n_hidden 1 }

  abbrev pub push_changed : Option (Value Number) → Effects S → Effects S
  push_changed none s = s
  push_changed (some v) s = record s { changed = s.changed ++ v ∷ [] }

  abbrev pub has_moved : ElementRec S → ElementRec S → Bool
  has_moved before rec = not (is_root S rec) && rect_delta S R P before.rect rec.rect

  module _ (target : ActionTarget S) (vw vh : S.F64) where
    -- an element of both captures
    unfoldable pub compare_rec : ElementRec S → ElementRec S → Effects S → Effects S
    unfolding signature_diff_keys changed_entry
    compare_rec before rec s =
        let visible_changed = xor before.visible rec.visible in
        let changed_props =
          signature_diff_keys S R P before.signature rec.signature (is_root S rec) in
        let moved = has_moved before rec in
        let counted = count_visible visible_changed rec.visible s in
        if visible_changed || not (is_empty_list changed_props) || moved
        then push_changed
            (changed_entry S R P target vw vh before rec visible_changed changed_props moved)
            counted
        else counted

    unfoldable pub visit : Option (ElementRec S) → ElementRec S → Effects S → Effects S
    unfolding compare_rec appeared_entry
    visit none rec s = record s {
      appeared = s.appeared ++ appeared_entry S R P target vw vh rec ∷ [];
    }
    visit (some before) rec s = compare_rec before rec s

    -- the loop over the elements of the second capture
    unfoldable pub visit_after : Recs S → Recs S → Effects S → Effects S
    unfolding visit find_rec
    visit_after before [] s = s
    visit_after before (rec ∷ recs) s =
        visit_after before recs (visit (find_rec S before rec.key) rec s)

    -- the loop over those of the first
    unfoldable pub visit_before : Recs S → Recs S → Effects S → Effects S
    unfolding find_rec removed_entry
    visit_before after [] s = s
    visit_before after (rec ∷ recs) s = visit_before after recs (
        if is_some (find_rec S after rec.key)
        then s
        else record s { removed = s.removed ++ removed_entry S R P target vw vh rec ∷ [] })

    unfoldable pub compare_maps : Recs S → Recs S → Effects S
    unfolding visit_after visit_before
    compare_maps before after = visit_before after before (visit_after before after no_effects)

  -- sorted and cut
  unfoldable pub shown : ℕ → Effects S → Effects S
  unfolding ranked ranked_changes
  shown limit s = record s {
    appeared = limited limit (ranked S R P s.appeared);
    removed = limited limit (ranked S R P s.removed);
    changed = limited limit (ranked_changes S R P s.changed);
  }

  unfoldable pub effect_of : Effects S → Effect
  effect_of s = classify_effect S R P s.appeared s.removed s.changed s.n_revealed s.n_hidden

  abbrev strings : List String → List (Value Number)
  strings [] = []
  strings (s ∷ ss) = string s ∷ strings ss

  abbrev pub target_value : ActionTarget S → S.F64 → S.F64 → Value Number
  target_value target vw vh = object (
      put_fields S R
        (("path", some (string target.path))
          ∷ ("rect", some (rect_to_json S R P target.rect))
          ∷ ("onscreen", some (bool (rect_onscreen S R P target.rect vw vh)))
          ∷ [])
        empty)

  abbrev pub report_fields : ActionTarget S → Action → ℕ → S.F64 → S.F64 → Effects S → Fields S R
  report_fields target action index vw vh s =
      let effect = effect_of s in
      ("index", some (number (from_usize index)))
      ∷ ("action", some (string (action_kind action)))
      ∷ ("selector", some (string (action_selector action)))
      ∷ ("timeout_ms", some (number (from_usize (action_timeout_ms action))))
      ∷ ("settle_ms", some (number (from_usize (action_settle_ms action))))
      ∷ ("target", some (target_value target vw vh))
      ∷ ("effect", some (string (effect_name effect)))
      ∷ (
        "summary",
        some (
            string (
              build_summary S R P effect (length s.appeared) (length s.removed) (length s.changed)
                s.n_revealed s.n_hidden (first s.appeared) target vw vh)),
      )
      ∷ (
        "css_keys",
        when (not (is_empty_list s.appeared) || not (is_empty_list s.removed))
            (some (array (list_to_items (strings effect_signature_props)))),
      )
      ∷ ("appeared", some (array (list_to_items s.appeared)))
      ∷ ("removed", some (array (list_to_items s.removed)))
      ∷ ("changed", some (array (list_to_items s.changed)))
      ∷ []

  unfoldable pub diff : Value Number → Value Number → ActionTarget S → Action → ℕ → ℕ → Value Number
  unfolding parse_elements keyed compare_maps shown put_fields effect_of build_summary
      classify_effect
  diff before after target action index limit =
      let (vw, vh) = parse_viewport S R P after in
      let s = shown limit (
        compare_maps target vw vh (keyed S (parse_elements S R P before))
          (keyed S (parse_elements S R P after))) in
      object (put_fields S R (report_fields target action index vw vh s) empty)
