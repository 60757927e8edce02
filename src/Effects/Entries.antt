-- ===== src/Effects/Entries.antt =====
-- The entries of the report in crates/sniff-engine/src/effects.rs, one for an element.
pub mod Changes
use mathlib.Core.Option
use sniff_css.Prelude.{
  String, Bool, true, false, not, ◌&&◌, Option, none, some, List, [], ◌∷◌, if◌then◌else◌,
}
use sniff_css.Json.{Value, bool, string, object, Map, empty, is_empty, Serde}
use sniff_css.Json.Floats.{Floats}
use sniff_css.Output.Snapshots.{Fields, put_fields}
use sniff_css.Output.Nodes.{when}
use sniff_css.Effects.Geometry.{
  Plane, Quad, rect_to_json, rect_onscreen, out_of_view, distance_from_point, direction_from_point,
}
use sniff_css.Effects.Signature.{signature_values, or_null}
use sniff_css.Effects.Records.{ElementRec}

-- crates/sniff-engine/src/action.rs
pub record ActionTarget (S : Serde) : Type 0 where
  pub path : String
  pub rect : Quad S
  pub center : S.F64 × S.F64

abbrev pub is_empty_list : {A : Type 0} → List A → Bool
is_empty_list [] = true
is_empty_list (x ∷ xs) = false

module _ (S : Serde) (R : Floats S) (P : Plane S) (target : ActionTarget S) (vw vh : S.F64) where
  open S use {Number, get, insert}
  open P use {from_f64}

  -- what every entry has
  abbrev pub base_fields : ElementRec S → Fields S R
  base_fields rec =
      let (cx, cy) = target.center in
      let oov = out_of_view S R P rec.rect vw vh in
      ("tag", some (string rec.tag))
      ∷ ("path", some (string rec.key))
      ∷ ("rect", some (rect_to_json S R P rec.rect))
      ∷ ("onscreen", some (bool (rect_onscreen S R P rec.rect vw vh)))
      ∷ ("out_of_view", when (not (is_empty oov)) (some (object oov)))
      ∷ (
        "distance_from_action",
        some (from_f64 (R.round (distance_from_point S R P rec.rect cx cy))),
      )
      ∷ ("direction", some (string (direction_from_point S R P rec.rect cx cy)))
      ∷ ("z_index", get rec.signature "z-index")
      ∷ ("text", Option.map string rec.text)
      ∷ ("aria", rec.aria)
      ∷ []

  unfoldable pub base_entry : ElementRec S → Map Number
  unfolding put_fields
  base_entry rec = put_fields S R (base_fields rec) empty

  unfoldable pub appeared_entry : ElementRec S → Value Number
  unfolding base_entry
  appeared_entry rec =
      object (insert (base_entry rec) "css_after_values" (signature_values S R P rec.signature))

  unfoldable pub removed_entry : ElementRec S → Value Number
  unfolding base_entry
  removed_entry rec =
      object (insert (base_entry rec) "css_before_values" (signature_values S R P rec.signature))

  abbrev pub before_after : ElementRec S → ElementRec S → String → Value Number
  before_after before after k = object (
      insert (insert empty "before" (or_null S R P (get before.signature k))) "after"
        (or_null S R P (get after.signature k)))

  -- the object `css_diff`
  unfoldable pub css_diff : ElementRec S → ElementRec S → List String → Map Number → Map Number
  css_diff before after [] m = m
  css_diff before after (k ∷ ks) m =
      css_diff before after ks (insert m k (before_after before after k))

  -- what a changed element has besides
  abbrev pub change_fields : ElementRec S → ElementRec S → Bool → List String → Bool → Fields S R
  change_fields before after visible_changed changed_props moved =
      ("rect_before", when moved (some (rect_to_json S R P before.rect)))
      ∷ ("rect_after", when moved (some (rect_to_json S R P after.rect)))
      ∷ ("visible_before", when visible_changed (some (bool before.visible)))
      ∷ ("visible_after", when visible_changed (some (bool after.visible)))
      ∷ (
        "css_diff",
        when (not (is_empty_list changed_props))
            (some (object (css_diff before after changed_props empty))),
      )
      ∷ []

  unfoldable pub changed_entry :
      ElementRec S → ElementRec S → Bool → List String → Bool → Option (Value Number)
  unfolding base_entry css_diff put_fields
  changed_entry before after visible_changed changed_props moved =
      if not visible_changed && is_empty_list changed_props && not moved
      then none
      else some (
          object (
            put_fields S R (change_fields before after visible_changed changed_props moved)
              (base_entry after)))
