-- ===== src/Tests/Matching.antt =====
-- The matching of siblings on small lists.
use sniff_css.Prelude.{◌≤◌, ◌≡◌, refl, true, none, some, List, [], ◌∷◌, String}
use sniff_css.Diff.Matching.{match_siblings}
use sniff_css.Diff.Matching.Counts.{count_open, count_unused, match_siblings-counts}
use sniff_css.Diff.Matching.Pairs.{times, taken, match_siblings-times}
use sniff_css.Diff.Matching.Anchors.{anchored, match_siblings-anchored}

abbrev bases : List String
bases = "" ∷ "a" ∷ "b" ∷ "a" ∷ []

abbrev heads : List String
heads = "b" ∷ "a" ∷ "c" ∷ []

-- "a" and "b" find their selectors, the first sibling takes what is left, the last one nothing
matched :
    match_siblings bases heads ≡ (some 2 ∷ some 1 ∷ some 0 ∷ none ∷ [], true ∷ true ∷ true ∷ [])
unfolding match_siblings
matched = refl

match_siblings-counts_example :
    (count_open (match_siblings bases heads).0 ≡ 1)
    × (count_unused (match_siblings bases heads).1 ≡ 0)
match_siblings-counts_example = match_siblings-counts bases heads

match_siblings-times_example :
    times 1 (match_siblings bases heads).0 ≡ taken (match_siblings bases heads).1 1
match_siblings-times_example = match_siblings-times bases heads 1

match_siblings-anchored_example : 1 ≤ anchored "a" bases (match_siblings bases heads).0 heads
match_siblings-anchored_example = match_siblings-anchored "a" bases heads refl
