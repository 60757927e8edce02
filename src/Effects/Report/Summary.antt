-- ===== src/Effects/Report/Summary.antt =====
-- What the report of crates/sniff-engine/src/effects.rs says of an action as a whole.
use Prim.Native.String.{◌++◌ as str_append}
use sniff_css.Prelude.{
  ℕ, zero, suc, String, Bool, false, not, ◌||◌, Option, none, some, List, [], ◌∷◌, ◌++◌,
  if◌then◌else◌, ltb, decimal,
}
use sniff_css.Json.{Value, Serde}
use sniff_css.Json.Floats.{Floats}
use sniff_css.Effects.Geometry.{
  Plane, Quad, rect_onscreen, out_of_view, oov_dirs, distance_from_point, f64_to_u64,
}
use sniff_css.Effects.Records.{value_at, str_or_empty}
use sniff_css.Effects.Entries.{ActionTarget, is_empty_list}
use sniff_css.Effects.Report.Ranks.{has_css_diff, rec_rect}

-- crates/sniff-core/src/config.rs: the selector, the timeout and the time to settle
pub data Action : Type 0 where
  click : String → ℕ → ℕ → Action
  hover : String → ℕ → ℕ → Action
  type_text : String → String → ℕ → ℕ → Action
  upload : String → List String → ℕ → ℕ → Action

abbrev pub action_kind : Action → String
action_kind (click s t e) = "click"
action_kind (hover s t e) = "hover"
action_kind (type_text s x t e) = "type"
action_kind (upload s fs t e) = "upload"

abbrev pub action_selector : Action → String
action_selector (click s t e) = s
action_selector (hover s t e) = s
action_selector (type_text s x t e) = s
action_selector (upload s fs t e) = s

abbrev pub action_timeout_ms : Action → ℕ
action_timeout_ms (click s t e) = t
action_timeout_ms (hover s t e) = t
action_timeout_ms (type_text s x t e) = t
action_timeout_ms (upload s fs t e) = t

abbrev pub action_settle_ms : Action → ℕ
action_settle_ms (click s t e) = e
action_settle_ms (hover s t e) = e
action_settle_ms (type_text s x t e) = e
action_settle_ms (upload s fs t e) = e

pub data Effect : Type 0 where
  revealed hidden changed moved no_effect : Effect

abbrev pub effect_name : Effect → String
effect_name revealed = "revealed"
effect_name hidden = "hidden"
effect_name changed = "changed"
effect_name moved = "moved"
effect_name no_effect = "no_effect"

abbrev pub first {ℓ} : {A : Type ℓ} → List A → Option A
first [] = none
first (x ∷ xs) = some x

module _ (S : Serde) where
  open S use {Number}

  module _ (R : Floats S) (P : Plane S) where
    abbrev pub any_css_diff : List (Value Number) → Bool
    any_css_diff [] = false
    any_css_diff (v ∷ vs) = has_css_diff S R P v || any_css_diff vs

    unfoldable pub classify_effect :
        List (Value Number) → List (Value Number) → List (Value Number) → ℕ → ℕ → Effect
    classify_effect appeared removed changes n_revealed n_hidden =
        if not (is_empty_list appeared) || ltb 0 n_revealed
        then revealed
        else if not (is_empty_list removed) || ltb 0 n_hidden
        then hidden
        else if any_css_diff changes
        then changed
        else if not (is_empty_list changes)
        then moved
        else no_effect

    -- `if n > 0 { parts.push(...) }`
    abbrev count_part : ℕ → String → List String
    count_part zero words = []
    count_part (suc n) words = str_append (decimal (suc n)) words ∷ []

    -- `parts.join(" · ")`
    unfoldable pub join_parts : List String → String
    join_parts [] = ""
    join_parts (p ∷ []) = p
    join_parts (p ∷ q ∷ ps) = str_append p (str_append " · " (join_parts (q ∷ ps)))

    abbrev pub count_parts : ℕ → ℕ → ℕ → ℕ → ℕ → List String
    count_parts n_appeared n_removed n_changed n_revealed n_hidden =
        count_part n_appeared " element(s) appeared"
        ++ count_part n_revealed " became visible"
        ++ count_part n_removed " removed"
        ++ count_part n_hidden " became hidden"
        ++ count_part n_changed " changed style/position"

    abbrev dir_note : List (String × S.F64) → String
    dir_note [] = "off-screen"
    dir_note ((dir, px) ∷ ds) = str_append (decimal (f64_to_u64 S R P px)) (str_append "px " dir)

    abbrev pub where_note : Quad S → S.F64 → S.F64 → String
    where_note r vw vh =
        if rect_onscreen S R P r vw vh
        then "on-screen"
        else dir_note (oov_dirs S R P (out_of_view S R P r vw vh))

    abbrev pub biggest_note : Option (Value Number) → ActionTarget S → S.F64 → S.F64 → String
    biggest_note none target vw vh = ""
    biggest_note (some v) target vw vh =
        let r = rec_rect S R P v in
        let (cx, cy) = target.center in
        str_append " · biggest: " (
          str_append (str_or_empty S (value_at S v "tag")) (
            str_append " " (
              str_append (where_note r vw vh) (
                str_append " — " (
                  str_append (decimal (f64_to_u64 S R P (distance_from_point S R P r cx cy)))
                    "px from click")))))

    abbrev counted_summary : List String → String
    counted_summary [] = "UI changed"
    counted_summary (p ∷ ps) = join_parts (p ∷ ps)

    unfoldable pub build_summary :
        Effect → ℕ → ℕ → ℕ → ℕ → ℕ → Option (Value Number) → ActionTarget S → S.F64 → S.F64 → String
    unfolding join_parts decimal
    build_summary no_effect n_appeared n_removed n_changed n_revealed n_hidden biggest target vw
          vh =
        "no DOM change within the settle window (the action may have had no handler, or the effect is async — raise settle_ms/--wait to observe it)"
    build_summary _ n_appeared n_removed n_changed n_revealed n_hidden biggest target vw vh =
        str_append
          (counted_summary (count_parts n_appeared n_removed n_changed n_revealed n_hidden))
          (biggest_note biggest target vw vh)
