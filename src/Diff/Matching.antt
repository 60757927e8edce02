-- ===== src/Diff/Matching.antt =====
-- How `diff_children` of crates/sniff-css-diff/src/diff.rs pairs two lists of siblings: by stable
-- selector first, then by position. Only the selectors matter here.
mod Found
pub mod Counts
pub mod Pairs
pub mod Anchors
pub mod Identity
use sniff_css.Prelude.{
  ℕ, suc, String, Bool, true, false, not, ◌&&◌, Option, none, some, List, [], ◌∷◌, str_eq, set,
  length, replicate, is_empty_str, if◌then◌else◌,
}

-- The index, from `i` on, of the first head that is not used and has the selector. A head that
-- `used_h` has no entry for counts as used.
unfoldable pub find_selector : String → List String → List Bool → ℕ → Option ℕ
find_selector sel [] used i = none
find_selector sel (h ∷ hs) [] i = none
find_selector sel (h ∷ hs) (u ∷ us) i =
    let rest = find_selector sel hs us (suc i) in if not u && str_eq sel h then some i else rest

-- the index, from `i` on, of the first head that is not used
unfoldable pub find_unused : List Bool → ℕ → Option ℕ
find_unused [] i = none
find_unused (u ∷ us) i = let rest = find_unused us (suc i) in if not u then some i else rest

abbrev pub mark : List Bool → Option ℕ → List Bool
mark used none = used
mark used (some hi) = set used hi true

-- pass 1: the slot of a base selector
unfoldable pub selector_slot : String → List String → List Bool → Option ℕ
unfolding find_selector
selector_slot b head used = if is_empty_str b then none else find_selector b head used 0

unfoldable pub pass_selectors : List String → List String → List Bool → List (Option ℕ) × List Bool
unfolding selector_slot
pass_selectors [] head used = ([], used)
pass_selectors (b ∷ bs) head used =
    let slot = selector_slot b head used in
    let (slots, used') = pass_selectors bs head (mark used slot) in (slot ∷ slots, used')

-- pass 2: the slots that pass 1 left open, by position
unfoldable pub pass_positions : List (Option ℕ) → List Bool → List (Option ℕ) × List Bool
unfolding find_unused
pass_positions [] used = ([], used)
pass_positions (some hi ∷ slots) used =
    let (rest, used') = pass_positions slots used in (some hi ∷ rest, used')
pass_positions (none ∷ slots) used =
    let slot = find_unused used 0 in
    let (rest, used') = pass_positions slots (mark used slot) in (slot ∷ rest, used')

-- both passes: `match_h` and `used_h`
unfoldable pub match_siblings : List String → List String → List (Option ℕ) × List Bool
unfolding pass_selectors pass_positions
match_siblings base head =
    let (slots, used) = pass_selectors base head (replicate (length head) false) in
    pass_positions slots used
