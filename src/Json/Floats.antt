-- ===== src/Json/Floats.antt =====
-- What crates/sniff-css-check and crates/sniff-core call of `f64` and of `i64`, beyond `Serde`.
use sniff_css.Prelude.{ℕ, ◌≤◌, ℤ, String, ◌≡◌, Bool, true, Option}
use sniff_css.Json.Interface.{Serde}

pub record Floats (S : Serde) : Type 0 where
  -- `+`, `*`, `/`, `min`, and `f64::total_cmp` as "not greater"
  pub add : S.F64 → S.F64 → S.F64
  pub mul : S.F64 → S.F64 → S.F64
  pub div : S.F64 → S.F64 → S.F64
  pub fmin : S.F64 → S.F64 → S.F64
  pub total_le : S.F64 → S.F64 → Bool
  -- `mul_add` and `powf`
  pub mul_add : S.F64 → S.F64 → S.F64 → S.F64
  pub powf : S.F64 → S.F64 → S.F64
  -- the literals `n / 100` and `n / 1000000`, and `f64::from` of an unsigned integer
  pub hundredths : ℕ → S.F64
  pub millionths : ℕ → S.F64
  pub from_uint : ℕ → S.F64
  -- `round`, `clamp` and the cast `as u32`
  pub round : S.F64 → S.F64
  pub clamp : S.F64 → S.F64 → S.F64 → S.F64
  pub as_u32 : S.F64 → ℕ
  -- `{}` and `{:0.n}` of `format!`
  pub show : S.F64 → String
  pub show_fixed : ℕ → S.F64 → String
  -- `Number::as_i64` and `str::parse::<i64>`
  pub as_i64 : S.Number → Option ℤ
  pub parse_i64 : String → Option ℤ

module _ (S : Serde) (R : Floats S) where
  open R use {from_uint, round, clamp, as_u32}

  -- `numeric::f64_to_u32`
  abbrev pub f64_to_u32 : S.F64 → ℕ
  f64_to_u32 v = as_u32 (clamp (round v) S.zero (from_uint 4294967295))

-- What the theorems use of the order of `f64`.
pub record OrderLaws (S : Serde) (R : Floats S) : Type 0 where
  pub fle_trans : (a b c : S.F64) → S.fle a b ≡ true → S.fle b c ≡ true → S.fle a c ≡ true
  -- literals are in the order of what they stand for
  pub fle-hundredths : (m n : ℕ) → m ≤ n → S.fle (R.hundredths m) (R.hundredths n) ≡ true
