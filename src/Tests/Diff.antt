-- ===== src/Tests/Diff.antt =====
-- The diff of small snapshots.
use sniff_css.Prelude.{
  ℕ, ◌≡◌, ◌↔◌, refl, true, false, none, some, [], ◌∷◌, String, arith, map, sort_unstable, dedup,
}
use sniff_css.Json.{string, object, Map, option_eq, depth}
use sniff_css.Json.Collect.{collect, union_keys}
use sniff_css.Diff.Options.{no_stats}
use sniff_css.Diff.Values.{
  strip_number, value_equal, prop_diff, object_diff, object_diff_fuel, style_diff, pseudo_diff,
  json_before_after,
}
use sniff_css.Diff.Values.Objects.{object_diff-none_iff, get-object_diff}
use sniff_css.Diff.Facets.{
  compute_changes, rect_diff, rect_coords, changed_line, removed_line, snapshot_value,
}
use sniff_css.Diff.Walk.{diff_trees, count_nodes}
use sniff_css.Diff.Walk.Self.{diff_trees_self}
use sniff_css.Diff.Walk.Tallies.{Agrees, OnlyChanged, diff_trees-Agrees, diff_trees-OnlyChanged}
use sniff_css.Diff.Actions.{diff_actions}
use sniff_css.Diff.Actions.Laws.{ActionTally, diff_actions_self, diff_actions-tally}
use sniff_css.Diff.Matching.{match_siblings}
use sniff_css.Tests.Host.{host, get, insert, value_eq, parse}
use sniff_css.Tests.Host.Laws.{host_maps, host_equality, host_floats}
use sniff_css.Tests.Samples.{box_width, options, quiet_options, page, shorter_page, blank, effect}

-- 44px and 45px are within a tolerance of 1, 44px and 47px are not, nor are 44px and 44rem.
widths :
    (value_equal host (some (string "44px")) (some (string "45px")) 1 ≡ true)
    × (value_equal host (some (string "44px")) (some (string "47px")) 1 ≡ false)
    × (value_equal host (some (string "44px")) (some (string " 44rem ")) 1 ≡ false)
unfolding value_equal strip_number parse
widths = (refl, refl, refl)

-- the card that stays has another width; the second one has no partner
page_lines :
    map (λ l. l.status) (diff_trees host options page shorter_page).out ≡ "CHANGED" ∷ "REMOVED" ∷ []
unfolding diff_trees match_siblings compute_changes style_diff pseudo_diff rect_diff rect_coords
    object_diff prop_diff value_equal strip_number collect union_keys sort_unstable dedup
    json_before_after changed_line removed_line snapshot_value get insert value_eq parse
    object_diff_fuel
page_lines = refl

object_diff-none_iff_example :
    (object_diff host (some (effect 1)) (some (effect 2)) ≡ none)
    ↔ (option_eq host (some (effect 1)) (some (effect 2)) ≡ true)
object_diff-none_iff_example =
    object_diff-none_iff host host_maps host_equality (some (effect 1)) (some (effect 2))

get-object_diff_example :
    (m : Map ℕ) × (object_diff host
        (some (object (box_width "1px")))
        (some (object (box_width "2px")))
      ≡ some (object m))
    × ((k : String)
        → host.get m k
          ≡ object_diff host (host.get (box_width "1px") k) (host.get (box_width "2px") k))
unfolding value_eq get depth
get-object_diff_example =
    get-object_diff host host_maps host_equality (box_width "1px") (box_width "2px") refl

diff_trees-self_example :
    diff_trees host options page page
    ≡ record { out = []; stats = record no_stats { base_nodes = 3; head_nodes = 3 } }
unfolding count_nodes
diff_trees-self_example = diff_trees_self host options host_maps host_equality host_floats refl page

diff_trees-Agrees_example : Agrees (diff_trees host options page shorter_page)
diff_trees-Agrees_example = diff_trees-Agrees host options page shorter_page

diff_trees-OnlyChanged_example : OnlyChanged (diff_trees host quiet_options page shorter_page)
diff_trees-OnlyChanged_example = diff_trees-OnlyChanged host quiet_options refl page shorter_page

diff_actions-self_example :
    diff_actions host (effect 1 ∷ effect 9 ∷ []) (effect 1 ∷ effect 9 ∷ []) options blank ≡ blank
diff_actions-self_example =
    diff_actions_self host host_equality (effect 1 ∷ effect 9 ∷ []) options blank

diff_actions-tally_example :
    ActionTally host
      (diff_actions host (effect 1 ∷ effect 9 ∷ []) (effect 5 ∷ []) options blank)
      0
      1
diff_actions-tally_example =
    diff_actions-tally host (effect 1 ∷ effect 9 ∷ []) (effect 5 ∷ []) options blank (omega arith)
