-- ===== src/Diff/Walk/Self.antt =====
-- A snapshot compared with itself gives no lines.
use mathlib.Core.List.{append_assoc}
use sniff_css.Prelude.{suc, ◌≡◌, refl, ap, ◌∙◌, true, some, List, [], ◌∷◌, ◌++◌, length, get_elem?}
use sniff_css.Json.{Serde, MapLaws, EqLaws, FloatLaws}
use sniff_css.Model.{DiffNode, node, Forest, nil, cons, to_list}
use sniff_css.Diff.Options.{DiffOptions, no_stats}
use sniff_css.Diff.Facets.Self.{compute_changes_self}
use sniff_css.Diff.Matching.Identity.{own_slots, trues, match_siblings_self}
use sniff_css.Diff.Walk.{
  Delta, selectors, count_nodes, report_added, diff_node, diff_matched, diff_trees,
}

get_elem?-middle :
    {A : Type 0} (pre : List A) (x : A) (post : List A)
    → get_elem? (pre ++ (x ∷ post)) (length pre) ≡ some x
get_elem?-middle [] x post = refl
get_elem?-middle (y ∷ pre) x post = get_elem?-middle pre x post

length-snoc : {A : Type 0} (pre : List A) (x : A) → length (pre ++ (x ∷ [])) ≡ suc (length pre)
length-snoc [] x = refl
length-snoc (y ∷ pre) x = ap suc (length-snoc pre x)

module _ (S : Serde) (opts : DiffOptions S) where
  open S use {Number}

  report_added_self :
      (f : Forest Number) (d : Delta Number)
      → report_added S opts (to_list f) (trues (selectors f)) d ≡ d
  unfolding report_added
  report_added_self nil d = refl
  report_added_self (cons x f) d = report_added_self f d

  module _ (L : MapLaws S) (E : EqLaws S) (A : FloatLaws S)
      (nonneg : S.fle S.zero opts.tolerance ≡ true) where
    mutual
      unfolding diff_node

      diff_node_self : (x : DiffNode Number) (d : Delta Number) → diff_node S opts x x d ≡ d
      diff_node_self (node i f) d =
          rw (compute_changes_self S L E A opts i nonneg, match_siblings_self (selectors f))
            (ap (report_added S opts (to_list f) (trues (selectors f))) (diff_matched_self f [] d)
              ∙ report_added_self f d)

      diff_matched_self :
          (f : Forest Number) (pre : List (DiffNode Number)) (d : Delta Number)
          → diff_matched S opts f (own_slots (length pre) (selectors f)) (pre ++ to_list f) d ≡ d
      diff_matched_self nil pre d = refl
      diff_matched_self (cons x f) pre d =
          rw (get_elem?-middle pre x (to_list f), diff_node_self x d)
            (rw (length-snoc pre x, append_assoc pre (x ∷ []) (to_list f)) at
              (diff_matched_self f (pre ++ (x ∷ [])) d))

    -- A snapshot that is compared with itself gives no lines and no counts but those of its nodes,
    -- if the tolerance is not negative.
    pub diff_trees_self :
        (f : Forest Number)
        → diff_trees S opts f f ≡ record {
          out = [];
          stats = record no_stats { base_nodes = count_nodes f; head_nodes = count_nodes f };
        }
    unfolding diff_trees
    diff_trees_self f =
        rw (match_siblings_self (selectors f), diff_matched_self f [] _) (report_added_self f _)
