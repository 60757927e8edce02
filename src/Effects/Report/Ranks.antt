-- ===== src/Effects/Report/Ranks.antt =====
-- The order of the entries in the report of crates/sniff-engine/src/effects.rs, and its limit.
use Prim.Native.String.{compare}
use text.Mathlib.Text.{is_le}
use sniff_css.Prelude.{
  ℕ, zero, suc, String, Bool, true, false, not, ◌&&◌, ◌||◌, Option, none, some, List, [], ◌∷◌,
  if◌then◌else◌, is_some, ltb, ◌==◌,
}
use sniff_css.Json.{Value, is_empty, Serde}
use sniff_css.Json.Floats.{Floats}
use sniff_css.Effects.Geometry.{Plane, Quad, area}
use sniff_css.Effects.Records.{value_at, str_or_empty, object_or_empty}

-- `xs.truncate(n)`
abbrev pub truncated {ℓ} : {A : Type ℓ} → ℕ → List A → List A
truncated zero xs = []
truncated (suc n) [] = []
truncated (suc n) (x ∷ xs) = x ∷ truncated n xs

-- a limit of 0 is none
abbrev pub limited {ℓ} : {A : Type ℓ} → ℕ → List A → List A
limited zero xs = xs
limited (suc n) xs = truncated (suc n) xs

-- what an entry is sorted by, compared in this order
abbrev pub Rank : Type 0
Rank = Bool × ℕ × String

abbrev bool_lt : Bool → Bool → Bool
bool_lt false b = b
bool_lt true b = false

abbrev bool_same : Bool → Bool → Bool
bool_same true b = b
bool_same false b = not b

-- `a >= b`
abbrev pub rank_ge : Rank → Rank → Bool
rank_ge (s, n, p) (t, m, q) =
    bool_lt t s || (bool_same s t && (ltb m n || (m == n && is_le (compare q p))))

module _ {A : Type 0} (rank : A → Rank) where
  unfoldable pub insert_ranked : A → List A → List A
  insert_ranked x [] = x ∷ []
  insert_ranked x (y ∷ ys) =
      let rest = insert_ranked x ys in if rank_ge (rank x) (rank y) then x ∷ y ∷ ys else y ∷ rest

  -- the stable `sort_by_cached_key` with `Reverse`
  unfoldable pub sort_ranked : List A → List A
  unfolding insert_ranked
  sort_ranked [] = []
  sort_ranked (x ∷ xs) = insert_ranked x (sort_ranked xs)

module _ (S : Serde) (R : Floats S) (P : Plane S) where
  open S use {Number, as_f64}

  abbrev pub finite : Option (Value Number) → Option S.F64
  finite (some (Value.number n)) = as_f64 n
  finite _ = none

  abbrev all_four : Option S.F64 → Option S.F64 → Option S.F64 → Option S.F64 → Option (Quad S)
  all_four (some x) (some y) (some w) (some h) = some (x, y, w, h)
  all_four _ _ _ _ = none

  abbrev pub rect_of : Value Number → Option (Quad S)
  rect_of v =
      all_four (finite (value_at S v "x")) (finite (value_at S v "y"))
        (finite (value_at S v "width")) (finite (value_at S v "height"))

  abbrev rect_in : Option (Value Number) → Option (Quad S)
  rect_in none = none
  rect_in (some v) = rect_of v

  abbrev area_or_zero : Option (Quad S) → S.F64
  area_or_zero none = S.zero
  area_or_zero (some r) = area S R P r

  abbrev pub area_bits : Value Number → ℕ
  area_bits v = P.to_bits (area_or_zero (rect_in (value_at S v "rect")))

  abbrev quad_or_zero : Option (Quad S) → Quad S
  quad_or_zero none = (S.zero, S.zero, S.zero, S.zero)
  quad_or_zero (some r) = r

  abbrev pub rec_rect : Value Number → Quad S
  rec_rect v = quad_or_zero (rect_in (value_at S v "rect"))

  abbrev pub has_css_diff : Value Number → Bool
  has_css_diff v = not (is_empty (object_or_empty S (value_at S v "css_diff")))

  -- the closures `sort_key` and `changed_sort_key`
  abbrev pub entry_rank : Value Number → Rank
  entry_rank v = (false, area_bits v, str_or_empty S (value_at S v "path"))

  abbrev pub change_rank : Value Number → Rank
  change_rank v = (
    has_css_diff v || is_some (value_at S v "visible_before"),
    area_bits v,
    str_or_empty S (value_at S v "path"),
  )

  unfoldable pub ranked : List (Value Number) → List (Value Number)
  unfolding sort_ranked
  ranked vs = sort_ranked entry_rank vs

  unfoldable pub ranked_changes : List (Value Number) → List (Value Number)
  unfolding sort_ranked
  ranked_changes vs = sort_ranked change_rank vs
