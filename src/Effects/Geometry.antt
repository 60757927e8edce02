-- ===== src/Effects/Geometry.antt =====
-- The geometry helpers of crates/sniff-engine/src/effects.rs.
use sniff_css.Prelude.{
  ℕ, ◌≡◌, String, Bool, true, ◌&&◌, ◌||◌, Option, none, some, List, [], ◌∷◌, if◌then◌else◌, str_eq,
}
use sniff_css.Json.{Value, object, Map, empty, Serde}
use sniff_css.Json.Floats.{Floats}
use sniff_css.Output.Snapshots.{put_fields}
use sniff_css.Output.Nodes.{when}

-- what effects.rs calls of `f64` beyond `Floats`
pub record Plane (S : Serde) : Type 0 where
  -- `-x`, `hypot`, `to_bits`, the cast `as u64`, and 2^64
  pub neg : S.F64 → S.F64
  pub hypot : S.F64 → S.F64 → S.F64
  pub to_bits : S.F64 → ℕ
  pub as_u64 : S.F64 → ℕ
  pub u64_ceil : S.F64
  -- `Value::from(f64)`
  pub from_f64 : S.F64 → Value S.Number

-- 0.0 is finite and at most 0.5
pub record PlaneLaws (S : Serde) (R : Floats S) : Type 0 where
  pub abs-sub_zero : S.abs (S.sub S.zero S.zero) ≡ S.zero
  pub zero-le-half : S.fle S.zero (R.hundredths 50) ≡ true

-- `(x, y, width, height)`
abbrev pub Quad : Serde → Type 0
Quad S = S.F64 × S.F64 × S.F64 × S.F64

module _ (S : Serde) (R : Floats S) (P : Plane S) where
  open S use {F64, Number, sub, abs, fmax, fle, flt, zero, as_f64, get}
  open R use {add, mul, div, total_le, hundredths, from_uint, round, clamp}
  open P use {neg, hypot, as_u64, u64_ceil, from_f64}

  -- `numeric::f64_to_u64`
  abbrev pub f64_to_u64 : F64 → ℕ
  f64_to_u64 v = as_u64 (clamp (round v) zero u64_ceil)

  -- RECT_TOLERANCE and SIGNATURE_TOLERANCE
  abbrev pub rect_tolerance : F64
  rect_tolerance = hundredths 50

  abbrev pub signature_tolerance : F64
  signature_tolerance = hundredths 50

  abbrev pub area : Quad S → F64
  area (x, y, w, h) = mul (fmax w zero) (fmax h zero)

  abbrev pub is_off : F64 → F64 → Bool
  is_off a b = flt rect_tolerance (abs (sub a b))

  abbrev pub rect_delta : Quad S → Quad S → Bool
  rect_delta (ax, ay, aw, ah) (bx, by, bw, bh) =
      is_off ax bx || is_off ay by || is_off aw bw || is_off ah bh

  abbrev pub rect_onscreen : Quad S → F64 → F64 → Bool
  rect_onscreen (x, y, w, h) vw vh =
      flt x vw && flt y vh && flt zero (add x w) && flt zero (add y h)

  abbrev pub rect_to_json : Quad S → Value Number
  rect_to_json (x, y, w, h) = object (
      put_fields S R
        (("x", some (from_f64 x))
          ∷ ("y", some (from_f64 y))
          ∷ ("width", some (from_f64 w))
          ∷ ("height", some (from_f64 h))
          ∷ [])
        empty)

  -- an amount is kept if it is more than half a pixel
  abbrev pub amount : F64 → Option (Value Number)
  amount px = when (flt (hundredths 50) px) (some (from_f64 (round px)))

  abbrev pub out_of_view : Quad S → F64 → F64 → Map Number
  out_of_view (x, y, w, h) vw vh =
      put_fields S R
        (("above", amount (fmax (neg y) zero))
          ∷ ("below", amount (fmax (sub (add y h) vh) zero))
          ∷ ("left", amount (fmax (neg x) zero))
          ∷ ("right", amount (fmax (sub (add x w) vw) zero))
          ∷ [])
        empty

  abbrev pub distance_from_point : Quad S → F64 → F64 → F64
  distance_from_point (rx, ry, rw, rh) x y =
      hypot (fmax (fmax (sub rx x) zero) (sub x (add rx rw)))
        (fmax (fmax (sub ry y) zero) (sub y (add ry rh)))

  -- the word for one axis, empty if the centre is within half a pixel
  abbrev pub axis_word : F64 → String → String → String
  axis_word d ahead behind =
      if flt (hundredths 50) (abs d) then if flt zero d then ahead else behind else ""

  -- the match on both words, with the larger axis first
  abbrev pub compass : String → String → Bool → String
  compass h v is_wide =
      if str_eq h ""
      then if str_eq v "" then "at-action-point" else v
      else if str_eq v ""
      then h
      else if is_wide
      then if str_eq h "right" && str_eq v "below"
        then "below-right"
        else if str_eq h "right" && str_eq v "above"
        then "above-right"
        else if str_eq h "left" && str_eq v "below"
        then "below-left"
        else "above-left"
      else if str_eq v "below" && str_eq h "right"
      then "below-right"
      else if str_eq v "below" && str_eq h "left"
      then "below-left"
      else if str_eq v "above" && str_eq h "right"
      then "above-right"
      else "above-left"

  abbrev pub direction_from_point : Quad S → F64 → F64 → String
  direction_from_point (rx, ry, rw, rh) x y =
      let dx = sub (add rx (div rw (from_uint 2))) x in
      let dy = sub (add ry (div rh (from_uint 2))) y in
      compass (axis_word dx "right" "left") (axis_word dy "below" "above") (fle (abs dy) (abs dx))

  abbrev pub f64_or_zero : Option (Value Number) → F64
  f64_or_zero (some (Value.number n)) = elim (as_f64 n) [ none ↦ zero | some x ↦ x ]
  f64_or_zero _ = zero

  -- stable, by descending amounts
  abbrev pub insert_dir : (String × F64) → List (String × F64) → List (String × F64)
  insert_dir d [] = d ∷ []
  insert_dir d (e ∷ ds) =
      let rest = insert_dir d ds in if total_le (e.1) (d.1) then d ∷ e ∷ ds else e ∷ rest

  abbrev pub retained : List (String × F64) → List (String × F64)
  retained [] = []
  retained (d ∷ ds) =
      let rest = retained ds in if flt (hundredths 50) (d.1) then insert_dir d rest else rest

  abbrev pub oov_dirs : Map Number → List (String × F64)
  oov_dirs oov = retained (
      ("above", f64_or_zero (get oov "above"))
      ∷ ("below", f64_or_zero (get oov "below"))
      ∷ ("left", f64_or_zero (get oov "left"))
      ∷ ("right", f64_or_zero (get oov "right"))
      ∷ [])
