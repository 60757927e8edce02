-- ===== src/Prelude/Keys.antt =====
-- Lists of keys: membership, the sorted union of two key lists, and loops that fill a map.
use Prim.Native.String.{String, compare}
use text.Mathlib.Text.{◌==◌, is_le}
use text.Mathlib.TextEquality.{eq_iff}
use mathlib.Core.Path.{◌≡◌, refl}
use mathlib.Core.Bool.{Bool, false, ◌||◌}
use mathlib.Core.List.{List, [], ◌∷◌, ◌++◌}
use native.Mathlib.Omega.{arith}
use sniff_css.Prelude.Tests.{if◌then◌else◌}

-- `list.contains(k)`
abbrev pub contains : List String → String → Bool
contains [] k = false
contains (x ∷ xs) k = x == k || contains xs k

insert_sorted : String → List String → List String
insert_sorted x [] = x ∷ []
insert_sorted x (y ∷ ys) = if is_le (compare x y) then x ∷ y ∷ ys else y ∷ insert_sorted x ys

-- `sort_unstable` of strings; equal strings cannot be told apart, so stability does not matter.
unfoldable pub sort_unstable : List String → List String
unfolding insert_sorted
sort_unstable [] = []
sort_unstable (x ∷ xs) = insert_sorted x (sort_unstable xs)

-- `Vec::dedup`: of each run of equal elements one stays.
unfoldable pub dedup : List String → List String
dedup [] = []
dedup (x ∷ []) = x ∷ []
dedup (x ∷ y ∷ ys) = let rest = dedup (y ∷ ys) in if x == y then rest else x ∷ rest

contains-insert_sorted :
    (x : String) (ys : List String) (k : String)
    → contains (insert_sorted x ys) k ≡ (x == k || contains ys k)
unfolding insert_sorted
contains-insert_sorted x [] k = refl
contains-insert_sorted x (y ∷ ys) k = ground (arith, contains-insert_sorted x ys k)

pub contains-sort_unstable :
    (xs : List String) (k : String) → contains (sort_unstable xs) k ≡ contains xs k
unfolding sort_unstable
contains-sort_unstable [] k = refl
contains-sort_unstable (x ∷ xs) k =
    ground (arith, contains-insert_sorted x (sort_unstable xs) k, contains-sort_unstable xs k)

pub contains-dedup : (xs : List String) (k : String) → contains (dedup xs) k ≡ contains xs k
unfolding dedup
contains-dedup [] k = refl
contains-dedup (x ∷ []) k = refl
contains-dedup (x ∷ y ∷ ys) k =
    ground (arith, contains-dedup (y ∷ ys) k, eq_iff x y, eq_iff x k, eq_iff y k)

pub contains-append :
    (xs ys : List String) (k : String) → contains (xs ++ ys) k ≡ (contains xs k || contains ys k)
contains-append [] ys k = refl
contains-append (x ∷ xs) ys k = ground (arith, contains-append xs ys k)
