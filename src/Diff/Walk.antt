-- ===== src/Diff/Walk.antt =====
-- `diff_trees`, `diff_children` and `diff_node` of crates/sniff-css-diff/src/diff.rs. The output
-- lines and the counters are passed along as one state.
pub mod Self
pub mod Tallies
use sniff_css.Prelude.{
  ℕ, String, Bool, not, ◌&&◌, Option, none, some, List, [], ◌∷◌, ◌++◌, get_elem?, saturating_add,
  if◌then◌else◌,
}
use sniff_css.Json.{Value, Serde}
use sniff_css.Model.{NodeInfo, DiffNode, node, Forest, nil, cons, info, children, to_list}
use sniff_css.Diff.Options.{DiffOptions, DeltaLine, DiffStats, no_stats}
use sniff_css.Diff.Facets.{compute_changes, added_line, removed_line, changed_line}
use sniff_css.Diff.Matching.{match_siblings}

unfoldable mutual
  pub count_node : {N : Type 0} → DiffNode N → ℕ
  count_node (node i f) = saturating_add (count_nodes f) 1

  pub count_nodes : {N : Type 0} → Forest N → ℕ
  count_nodes nil = 0
  count_nodes (cons x f) = Prim.Native.Nat.◌+◌ (count_node x) (count_nodes f)

-- the selectors of siblings, which the matching reads
abbrev pub selectors : {N : Type 0} → Forest N → List String
selectors nil = []
selectors (cons x f) = (info x).selector ∷ selectors f

-- `out` and `stats`
pub record Delta (N : Type 0) : Type 0 where
  pub out : List (DeltaLine N)
  pub stats : DiffStats

-- the empty output and the counters that `diff_trees` starts from
abbrev pub start : {N : Type 0} → Forest N → Forest N → Delta N
start base head = record {
  out = [];
  stats = record no_stats { base_nodes = count_nodes base; head_nodes = count_nodes head };
}

module _ (S : Serde) (opts : DiffOptions S) where
  open S use {Number}

  abbrev pub push_changed : NodeInfo Number → Option (Value Number) → Delta Number → Delta Number
  push_changed head none d = d
  push_changed head (some changes) d = record {
    out = d.out ++ changed_line S head changes ∷ [];
    stats = record d.stats { changed = saturating_add d.stats.changed 1 };
  }

  abbrev pub push_removed : NodeInfo Number → Delta Number → Delta Number
  push_removed b d =
      if not opts.ignore_structural
      then record {
        out = d.out ++ removed_line S b ∷ [];
        stats = record d.stats { removed = saturating_add d.stats.removed 1 };
      }
      else d

  abbrev pub push_added : NodeInfo Number → Delta Number → Delta Number
  push_added h d = record {
    out = d.out ++ added_line S h ∷ [];
    stats = record d.stats { added = saturating_add d.stats.added 1 };
  }

  -- the last loop of `diff_children`: the heads that no base node took
  unfoldable pub report_added : List (DiffNode Number) → List Bool → Delta Number → Delta Number
  report_added [] used d = d
  report_added (h ∷ hs) [] d = d
  report_added (h ∷ hs) (u ∷ us) d =
      report_added hs us (if not u && not opts.ignore_structural then push_added (info h) d else d)

  unfoldable mutual
    -- a matched pair: the node's own changes, then its children
    pub diff_node : DiffNode Number → DiffNode Number → Delta Number → Delta Number
    diff_node (node b bs) h d =
        let d' = push_changed (info h) (compute_changes S b (info h) opts) d in
        let (slots, used) = match_siblings (selectors bs) (selectors (children h)) in
        report_added (to_list (children h)) used (diff_matched bs slots (to_list (children h)) d')

    -- the loop over the base siblings and their slots
    pub diff_matched :
        Forest Number → List (Option ℕ) → List (DiffNode Number) → Delta Number → Delta Number
    diff_matched nil slots head d = d
    diff_matched (cons b bs) [] head d = d
    diff_matched (cons b bs) (none ∷ slots) head d =
        diff_matched bs slots head (push_removed (info b) d)
    diff_matched (cons b bs) (some hi ∷ slots) head d =
        diff_matched bs slots head
          (elim (get_elem? head hi) [ none ↦ d | some h ↦ diff_node b h d ])

  unfoldable pub diff_children : Forest Number → Forest Number → Delta Number → Delta Number
  unfolding diff_node report_added
  diff_children base head d =
      let (slots, used) = match_siblings (selectors base) (selectors head) in
      report_added (to_list head) used (diff_matched base slots (to_list head) d)

  unfoldable pub diff_trees : Forest Number → Forest Number → Delta Number
  unfolding diff_children count_nodes
  diff_trees base head = diff_children base head (start base head)
