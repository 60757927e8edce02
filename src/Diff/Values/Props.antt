-- ===== src/Diff/Values/Props.antt =====
-- `prop_diff` and `style_diff`: which properties they report, and that nothing differs from itself.
use sniff_css.Prelude.{
  String, ◌≡◌, refl, true, Option, none, some, arith, eq_refl, eq_iff, Option-cases, inl, inr,
}
use sniff_css.Json.{Value, number, string, Serde, EqLaws, FloatLaws}
use sniff_css.Diff.Values.{close, strip_number, numbers_equal, value_equal}

module _ (S : Serde) where
  open S use {Number, F64, get, as_f64}

  module _ (E : EqLaws S) (A : FloatLaws S) where
    numbers_equal_refl :
        (tol : F64) (n : Number) → numbers_equal S tol n n (as_f64 n) (as_f64 n) ≡ true
    unfolding numbers_equal
    numbers_equal_refl tol n = elim (Option-cases (as_f64 n)) [
      | inl e ↦ rw e (E.number_refl n)
      | inr (x, e) ↦ rw e (ground (arith, A.abs-sub_self n x e, A.zero-le-fmax tol))
    ]

    -- a value counts as equal to itself, whatever the tolerance
    pub value_equal_refl : (o : Option (Value Number)) (tol : F64) → value_equal S o o tol ≡ true
    unfolding value_equal
    value_equal_refl none tol = refl
    value_equal_refl (some (string a)) tol = ground (arith, eq_refl a)
    value_equal_refl (some (number a)) tol = numbers_equal_refl tol a
    value_equal_refl (some v) tol = E.eq_refl _

    close_comm : (tol : F64) (a b : Option (F64 × String)) → close S tol a b ≡ close S tol b a
    unfolding close
    close_comm tol (some (x, ru)) (some (y, rv)) =
        ground (arith, eq_iff ru rv, eq_iff rv ru, A.abs-sub_comm x y)
    close_comm tol none (some b) = refl
    close_comm tol (some a) none = refl
    close_comm tol none none = refl

    numbers_equal_comm :
        (tol : F64) (a b : Number) (x y : Option F64)
        → numbers_equal S tol a b x y ≡ numbers_equal S tol b a y x
    unfolding numbers_equal
    numbers_equal_comm tol a b (some x) (some y) = ground (arith, A.abs-sub_comm x y)
    numbers_equal_comm tol a b none (some y) = E.number_sym a b
    numbers_equal_comm tol a b (some x) none = E.number_sym a b
    numbers_equal_comm tol a b none none = E.number_sym a b

    -- Whether two values count as equal does not depend on which snapshot is the base.
    pub value_equal_comm :
        (a b : Option (Value Number)) (tol : F64) → value_equal S a b tol ≡ value_equal S b a tol
    unfolding value_equal
    value_equal_comm (some (string a)) (some (string b)) tol =
        ground (arith, eq_iff a b, eq_iff b a, close_comm tol (strip_number S a) (strip_number S b))
    value_equal_comm (some (number a)) (some (number b)) tol =
        numbers_equal_comm tol a b (as_f64 a) (as_f64 b)
    value_equal_comm none none tol = refl
    value_equal_comm none (some b) tol = ground arith
    value_equal_comm (some a) none tol = ground arith
    value_equal_comm (some a) (some b) tol = ground (arith, E.eq_sym a b)
