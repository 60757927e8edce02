-- ===== src/Diff/Walk/Tallies.antt =====
-- The counters agree with the lines, and `ignore_structural` leaves changed nodes only.
use sniff_css.Prelude.{
  ℕ, ◌+◌, min, String, ◌≡◌, refl, Bool, true, false, Option, none, some, List, [], ◌∷◌, ◌++◌, arith,
  str_eq, if◌then◌else◌, usize_max, get_elem?, Bool-cases, inl, inr,
}
use sniff_css.Json.{Value, Serde}
use sniff_css.Model.{NodeInfo, DiffNode, node, Forest, nil, cons, info, to_list}
use sniff_css.Diff.Options.{DiffOptions, DeltaLine}
use sniff_css.Diff.Facets.{compute_changes, changed_line, added_line, removed_line}
use sniff_css.Diff.Matching.{match_siblings}
use sniff_css.Diff.Walk.{
  Delta, start, selectors, push_changed, push_removed, push_added, report_added, diff_node,
  diff_matched, diff_trees,
}

-- the lines of a kind
abbrev pub count_status : {N : Type 0} → String → List (DeltaLine N) → ℕ
count_status s [] = 0
count_status s (l ∷ ls) = (if str_eq l.status s then 1 else 0) + count_status s ls

pub count_status-snoc :
    {N : Type 0} (s : String) (ls : List (DeltaLine N)) (l : DeltaLine N)
    → count_status s (ls ++ l ∷ []) ≡ count_status s ls + (if str_eq l.status s then 1 else 0)
count_status-snoc s [] l = omega arith
count_status-snoc s (x ∷ ls) l = omega (arith, count_status-snoc s ls l)

-- Each counter is the number of lines of its kind, up to the largest `usize`.
pub record Agrees {N : Type 0} (d : Delta N) : Type 0 where
  pub changed : d.stats.changed ≡ min (count_status "CHANGED" d.out) usize_max
  pub added : d.stats.added ≡ min (count_status "ADDED" d.out) usize_max
  pub removed : d.stats.removed ≡ min (count_status "REMOVED" d.out) usize_max

module _ (S : Serde) (opts : DiffOptions S) where
  open S use {Number}

  push_changed-Agrees :
      (h : NodeInfo Number) (c : Option (Value Number)) (d : Delta Number)
      → Agrees d
      → Agrees (push_changed S opts h c d)
  unfolding changed_line
  push_changed-Agrees h none d a = a
  push_changed-Agrees h (some c) d a =
      let l = changed_line S h c in
      ground (
        arith,
        count_status-snoc "CHANGED" d.out l,
        count_status-snoc "ADDED" d.out l,
        count_status-snoc "REMOVED" d.out l,
      )

  push_removed-Agrees :
      (b : NodeInfo Number) (d : Delta Number) → Agrees d → Agrees (push_removed S opts b d)
  unfolding removed_line
  push_removed-Agrees b d a =
      let l = removed_line S b in
      ground (
        arith,
        count_status-snoc "CHANGED" d.out l,
        count_status-snoc "ADDED" d.out l,
        count_status-snoc "REMOVED" d.out l,
      )

  push_added-Agrees :
      (b : NodeInfo Number) (d : Delta Number) → Agrees d → Agrees (push_added S opts b d)
  unfolding added_line
  push_added-Agrees b d a =
      let l = added_line S b in
      ground (
        arith,
        count_status-snoc "CHANGED" d.out l,
        count_status-snoc "ADDED" d.out l,
        count_status-snoc "REMOVED" d.out l,
      )

  report_added-Agrees :
      (hs : List (DiffNode Number)) (used : List Bool) (d : Delta Number)
      → Agrees d
      → Agrees (report_added S opts hs used d)
  unfolding report_added
  report_added-Agrees [] used d a = a
  report_added-Agrees (h ∷ hs) [] d a = a
  report_added-Agrees (h ∷ hs) (true ∷ us) d a = report_added-Agrees hs us d a
  report_added-Agrees (h ∷ hs) (false ∷ us) d a = elim (Bool-cases opts.ignore_structural) [
    | inl e ↦ rw e (report_added-Agrees hs us d a)
    | inr e ↦ rw e (report_added-Agrees hs us _ (push_added-Agrees (info h) d a))
  ]

  mutual
    unfolding diff_node

    diff_node-Agrees :
        (b h : DiffNode Number) (d : Delta Number) → Agrees d → Agrees (diff_node S opts b h d)
    diff_node-Agrees (node b bs) h d a = report_added-Agrees _ _ _ (
        diff_matched-Agrees bs _ _ _
          (push_changed-Agrees (info h) (compute_changes S b (info h) opts) d a))

    diff_matched-Agrees :
        (bs : Forest Number) (slots : List (Option ℕ)) (hs : List (DiffNode Number))
        (d : Delta Number)
        → Agrees d
        → Agrees (diff_matched S opts bs slots hs d)
    diff_matched-Agrees nil slots hs d a = a
    diff_matched-Agrees (cons b bs) [] hs d a = a
    diff_matched-Agrees (cons b bs) (none ∷ slots) hs d a =
        diff_matched-Agrees bs slots hs _ (push_removed-Agrees (info b) d a)
    diff_matched-Agrees (cons b bs) (some hi ∷ slots) hs d a =
        diff_matched-Agrees bs slots hs _
          (elim (get_elem? hs hi)
            as (λ o.
              Agrees
                (elim o as (λ _. Delta Number) [ none ↦ d | some h ↦ diff_node S opts b h d ])) [
                  | none ↦ a
                  | some h ↦ diff_node-Agrees b h d a
                ])

  -- The counters of a diff are the numbers of its CHANGED, ADDED and REMOVED lines.
  pub diff_trees-Agrees : (base head : Forest Number) → Agrees (diff_trees S opts base head)
  unfolding diff_trees
  diff_trees-Agrees base head =
      let (slots, used) = match_siblings (selectors base) (selectors head) in
      report_added-Agrees (to_list head) used _
        (diff_matched-Agrees base slots (to_list head) (start base head) (omega arith))

-- no line of the two structural kinds
abbrev pub OnlyChanged : {N : Type 0} → Delta N → Type 0
OnlyChanged d =
    (count_status "ADDED" d.out ≡ 0)
    × (count_status "REMOVED" d.out ≡ 0)
    × (d.stats.added ≡ 0)
    × (d.stats.removed ≡ 0)

module _ (S : Serde) (opts : DiffOptions S) (quiet : opts.ignore_structural ≡ true) where
  open S use {Number}

  push_changed-OnlyChanged :
      (h : NodeInfo Number) (c : Option (Value Number)) (d : Delta Number)
      → OnlyChanged d
      → OnlyChanged (push_changed S opts h c d)
  unfolding changed_line
  push_changed-OnlyChanged h none d a = a
  push_changed-OnlyChanged h (some c) d a =
      let l = changed_line S h c in
      ground (arith, count_status-snoc "ADDED" d.out l, count_status-snoc "REMOVED" d.out l)

  report_added-OnlyChanged :
      (hs : List (DiffNode Number)) (used : List Bool) (d : Delta Number)
      → report_added S opts hs used d ≡ d
  unfolding report_added
  report_added-OnlyChanged [] used d = refl
  report_added-OnlyChanged (h ∷ hs) [] d = refl
  report_added-OnlyChanged (h ∷ hs) (true ∷ us) d = report_added-OnlyChanged hs us d
  report_added-OnlyChanged (h ∷ hs) (false ∷ us) d = rw quiet (report_added-OnlyChanged hs us d)

  mutual
    unfolding diff_node

    diff_node-OnlyChanged :
        (b h : DiffNode Number) (d : Delta Number)
        → OnlyChanged d
        → OnlyChanged (diff_node S opts b h d)
    diff_node-OnlyChanged (node b bs) h d a = rw report_added-OnlyChanged (
        diff_matched-OnlyChanged bs _ _ _
          (push_changed-OnlyChanged (info h) (compute_changes S b (info h) opts) d a))

    diff_matched-OnlyChanged :
        (bs : Forest Number) (slots : List (Option ℕ)) (hs : List (DiffNode Number))
        (d : Delta Number)
        → OnlyChanged d
        → OnlyChanged (diff_matched S opts bs slots hs d)
    diff_matched-OnlyChanged nil slots hs d a = a
    diff_matched-OnlyChanged (cons b bs) [] hs d a = a
    diff_matched-OnlyChanged (cons b bs) (none ∷ slots) hs d a =
        diff_matched-OnlyChanged bs slots hs _ (rw quiet a)
    diff_matched-OnlyChanged (cons b bs) (some hi ∷ slots) hs d a =
        diff_matched-OnlyChanged bs slots hs _
          (elim (get_elem? hs hi)
            as (λ o.
              OnlyChanged
                (elim o as (λ _. Delta Number) [ none ↦ d | some h ↦ diff_node S opts b h d ])) [
                  | none ↦ a
                  | some h ↦ diff_node-OnlyChanged b h d a
                ])

  -- With `ignore_structural` a diff reports no ADDED and no REMOVED line, and counts none.
  pub diff_trees-OnlyChanged :
      (base head : Forest Number) → OnlyChanged (diff_trees S opts base head)
  unfolding diff_trees
  diff_trees-OnlyChanged base head =
      rw report_added-OnlyChanged
        (diff_matched-OnlyChanged base _ _ (start base head) (omega arith))
