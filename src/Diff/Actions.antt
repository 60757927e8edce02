-- ===== src/Diff/Actions.antt =====
-- `diff_actions` of crates/sniff-css-diff/src/diff.rs: the diff of the interaction effects. The
-- children model the expansion of an action and the comparison of two actions.
pub mod Expand
pub mod Compare
pub mod Enough
pub mod Laws
unfoldable pub use Expand.{expand_action_values}
unfoldable pub use Compare.{compare_action_value}
use sniff_css.Prelude.{
  ℕ, zero, suc, ◌+◌, String, Bool, true, false, not, ◌&&◌, Option, none, some, List, [], ◌∷◌, ◌++◌,
  map, if◌then◌else◌, get_elem?, length, max, saturating_add, is_empty_str, decimal,
}
use Prim.Native.String.{◌++◌ as str_append}
use sniff_css.Json.{
  Value, null, number, string, array, object, Items, Map, empty, entry, as_object, as_array, as_str,
  keys, is_empty, items_to_list, list_to_items, Serde, depth,
}
use sniff_css.Json.Collect.{union_keys}
use sniff_css.Diff.Options.{DiffOptions, DeltaLine}
use sniff_css.Diff.Values.{json_before_after, get_opt}
use sniff_css.Diff.Walk.{Delta}

module _ (S : Serde) where
  open S use {Number, F64}

  abbrev pub action_line :
      String → ℕ → Option (Value Number) → Option (Value Number) → DeltaLine Number
  action_line status index changes snapshot = record {
    status = status;
    selector = str_append "action[" (str_append (decimal index) "]");
    tag = none;
    path = none;
    depth = none;
    changes = changes;
    snapshot = snapshot;
  }

  abbrev pub push_action : DeltaLine Number → Delta Number → Delta Number
  push_action line d = record {
    out = d.out ++ line ∷ [];
    stats = record d.stats { actions_changed = saturating_add d.stats.actions_changed 1 };
  }

  -- one round of the loop of `diff_actions`
  unfoldable pub diff_action :
      F64 → ℕ → Option (Value Number) → Option (Value Number) → Delta Number → Delta Number
  diff_action tol index (some b) (some h) d =
      let changes =
        compare_action_value S (expand_action_values S b) (expand_action_values S h) tol "" empty in
      if is_empty changes
      then d
      else push_action (action_line "ACTION_CHANGED" index (some (object changes)) none) d
  diff_action tol index (some b) none d =
      push_action
        (action_line "ACTION_REMOVED" index none
          (some (json_before_after S (some (expand_action_values S b)) none)))
        d
  diff_action tol index none (some h) d =
      push_action
        (action_line "ACTION_ADDED" index none
          (some (json_before_after S none (some (expand_action_values S h)))))
        d
  diff_action tol index none none d = d

  -- `n` rounds, from index `i` on
  unfoldable pub diff_actions_from :
      F64 → List (Value Number) → List (Value Number) → ℕ → ℕ → Delta Number → Delta Number
  unfolding diff_action
  diff_actions_from tol base head zero i d = d
  diff_actions_from tol base head (suc n) i d =
      diff_actions_from tol base head n (suc i)
        (diff_action tol i (get_elem? base i) (get_elem? head i) d)

  unfoldable pub diff_actions :
      List (Value Number) → List (Value Number) → DiffOptions S → Delta Number → Delta Number
  unfolding diff_actions_from
  diff_actions base head opts d =
      diff_actions_from opts.tolerance base head (max (length base) (length head)) 0 d
