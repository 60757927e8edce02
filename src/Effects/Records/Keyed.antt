-- ===== src/Effects/Records/Keyed.antt =====
-- The map of `keyed` in crates/sniff-engine/src/effects.rs and its lookups.
use Prim.Native.String.{compare}
use text.Mathlib.Text.{is_le}
use sniff_css.Prelude.{
  ◌≡◌, refl, String, true, false, not, ◌&&◌, Option, none, some, List, [], ◌∷◌, arith,
  if◌then◌else◌, str_eq, eq_iff, is_empty_str, is_some, Bool-cases, inl, inr,
}
use sniff_css.Json.{Serde}
use sniff_css.Effects.Records.{
  ElementRec, Recs, find_rec, replace_rec, place_rec, insert_rec, keyed_onto, keyed,
}

module _ (S : Serde) where
  abbrev pub if_has_key : ElementRec S → String → Option (ElementRec S)
  if_has_key r k = if not (is_empty_str r.key) && str_eq r.key k then some r else none

  abbrev pub rec_or : Option (ElementRec S) → Option (ElementRec S) → Option (ElementRec S)
  rec_or none o = o
  rec_or (some r) o = some r

  -- the last element that has a key; an empty one does not count
  abbrev pub last_with : List (ElementRec S) → String → Option (ElementRec S)
  last_with [] k = none
  last_with (r ∷ rs) k = rec_or (last_with rs k) (if_has_key r k)

  -- an element is found by its own key
  pub find_rec-key :
      (rs : Recs S) (k : String) (r : ElementRec S) → find_rec S rs k ≡ some r → r.key ≡ k
  unfolding find_rec
  find_rec-key [] k r h = absurd (ground (arith, h))
  find_rec-key (q ∷ rs) k r h = elim (Bool-cases (str_eq q.key k)) [
    | inl e ↦ ground (arith, h, e, eq_iff q.key k)
    | inr e ↦ find_rec-key rs k r (ground (arith, h, e))
  ]

  find_rec-replace_rec :
      (r : ElementRec S) (rs : Recs S) (k : String)
      → is_some (find_rec S rs r.key) ≡ true
      → find_rec S (replace_rec S r rs) k ≡ (if str_eq r.key k then some r else find_rec S rs k)
  unfolding find_rec
  find_rec-replace_rec r [] k h = absurd (ground (arith, h))
  find_rec-replace_rec r (q ∷ qs) k h =
      ground
        (arith, find_rec-replace_rec r qs k, h, eq_iff q.key r.key, eq_iff q.key k, eq_iff r.key k)

  find_rec-place_rec :
      (r : ElementRec S) (rs : Recs S) (k : String)
      → is_some (find_rec S rs r.key) ≡ false
      → find_rec S (place_rec S r rs) k ≡ (if str_eq r.key k then some r else find_rec S rs k)
  unfolding find_rec
  find_rec-place_rec r [] k h = refl
  find_rec-place_rec r (q ∷ qs) k h =
      ground
        (arith, find_rec-place_rec r qs k, h, eq_iff q.key r.key, eq_iff q.key k, eq_iff r.key k)

  pub find_rec-insert_rec :
      (r : ElementRec S) (rs : Recs S) (k : String)
      → find_rec S (insert_rec S r rs) k ≡ (if str_eq r.key k then some r else find_rec S rs k)
  unfolding insert_rec
  find_rec-insert_rec r rs k = elim (Bool-cases (is_some (find_rec S rs r.key))) [
    | inl e ↦ rw e (find_rec-replace_rec r rs k e)
    | inr e ↦ rw e (find_rec-place_rec r rs k e)
  ]

  none_of : (o : Option (ElementRec S)) → is_some o ≡ false → o ≡ none
  none_of none h = refl
  none_of (some r) h = absurd (ground (arith, h))

  -- the keys differ
  abbrev pub IsKeyed : Recs S → Type 0
  IsKeyed [] = true ≡ true
  IsKeyed (r ∷ rs) = (find_rec S rs r.key ≡ none) × IsKeyed rs

  replace_rec-IsKeyed :
      (r : ElementRec S) (rs : Recs S)
      → is_some (find_rec S rs r.key) ≡ true
      → IsKeyed rs
      → IsKeyed (replace_rec S r rs)
  unfolding find_rec
  replace_rec-IsKeyed r [] h u = u
  replace_rec-IsKeyed r (q ∷ qs) h (n, u) = elim (Bool-cases (str_eq q.key r.key)) [
    | inl e ↦ rw e (ground (arith, n, e, eq_iff q.key r.key), u)
    | inr e ↦
        let h : is_some (find_rec S qs r.key) ≡ true = ground (arith, h, e) in
        rw e (
          ground (
            arith,
            n,
            e,
            find_rec-replace_rec r qs q.key h,
            eq_iff q.key r.key,
            eq_iff r.key q.key,
          ),
          replace_rec-IsKeyed r qs h u,
        )
  ]

  place_rec-IsKeyed :
      (r : ElementRec S) (rs : Recs S)
      → is_some (find_rec S rs r.key) ≡ false
      → IsKeyed rs
      → IsKeyed (place_rec S r rs)
  unfolding find_rec
  place_rec-IsKeyed r [] h u = (refl, refl)
  place_rec-IsKeyed r (q ∷ qs) h (n, u) = elim (Bool-cases (is_le (compare r.key q.key))) [
    | inl l ↦ rw l (none_of _ h, (n, u))
    | inr l ↦ rw l (
      ground (arith, n, h, find_rec-place_rec r qs q.key, eq_iff q.key r.key, eq_iff r.key q.key),
      place_rec-IsKeyed r qs (ground (arith, h)) u,
    )
  ]

  insert_rec-IsKeyed : (r : ElementRec S) (rs : Recs S) → IsKeyed rs → IsKeyed (insert_rec S r rs)
  unfolding insert_rec
  insert_rec-IsKeyed r rs u = elim (Bool-cases (is_some (find_rec S rs r.key))) [
    | inl e ↦ rw e (replace_rec-IsKeyed r rs e u)
    | inr e ↦ rw e (place_rec-IsKeyed r rs e u)
  ]

  keyed_onto-IsKeyed :
      (rs : List (ElementRec S)) (m : Recs S) → IsKeyed m → IsKeyed (keyed_onto S rs m)
  unfolding keyed_onto
  keyed_onto-IsKeyed [] m u = u
  keyed_onto-IsKeyed (r ∷ rs) m u =
      keyed_onto-IsKeyed rs (if is_empty_str r.key then m else insert_rec S r m)
        (elim (Bool-cases (is_empty_str r.key)) [
          | inl e ↦ rw e u
          | inr e ↦ rw e (insert_rec-IsKeyed r m u)
        ])

  pub keyed-IsKeyed : (rs : List (ElementRec S)) → IsKeyed (keyed S rs)
  unfolding keyed
  keyed-IsKeyed rs = keyed_onto-IsKeyed rs [] refl

  find_rec-keyed_onto :
      (rs : List (ElementRec S)) (m : Recs S) (k : String)
      → find_rec S (keyed_onto S rs m) k ≡ rec_or (last_with rs k) (find_rec S m k)
  unfolding keyed_onto
  find_rec-keyed_onto [] m k = refl
  find_rec-keyed_onto (r ∷ rs) m k = ground (
    arith,
    find_rec-keyed_onto rs (if is_empty_str r.key then m else insert_rec S r m) k,
    find_rec-insert_rec r m k,
  )

  pub find_rec-keyed :
      (rs : List (ElementRec S)) (k : String) → find_rec S (keyed S rs) k ≡ last_with rs k
  unfolding keyed find_rec
  find_rec-keyed rs k = ground (arith, find_rec-keyed_onto rs [] k)
