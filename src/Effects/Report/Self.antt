-- ===== src/Effects/Report/Self.antt =====
-- Two captures that are the same.
use sniff_css.Prelude.{
  ℕ, ◌≡◌, refl, ap, ◌∙◌, String, Bool, true, false, not, ◌&&◌, ◌||◌, Option, none, some, List, [],
  ◌∷◌, arith, if◌then◌else◌, get_elem?, str_eq, eq_refl, is_empty_str,
}
use sniff_css.Json.{
  Value, null, bool, number, string, array, object, Map, Serde, MapLaws, EqLaws, FloatLaws,
}
use sniff_css.Json.Floats.{Floats}
use sniff_css.Effects.Geometry.{Plane, PlaneLaws, is_off, f64_or_zero}
use sniff_css.Effects.Signature.{
  css_value_equal, numbers_equal, differing, signature_diff_keys, effect_signature_props,
  root_signature_props,
}
use sniff_css.Effects.Records.{
  ElementRec, is_root, parse_element, parse_all, parse_elements, value_at, list_or_empty,
}
use sniff_css.Effects.Records.Keyed.{last_with, rec_or, if_has_key}
use sniff_css.Effects.Entries.{ActionTarget, is_empty_list}
use sniff_css.Effects.Report.{xor, has_moved, diff}
use sniff_css.Effects.Report.Summary.{Action}
use sniff_css.Effects.Report.Quiet.{is_unchanged}
use sniff_css.Effects.Report.Unchanged.{is_same, diff-no_effect_iff}

not_moved :
    (root x y w h : Bool)
    → x ≡ false
    → y ≡ false
    → w ≡ false
    → h ≡ false
    → (not root && (x || y || w || h)) ≡ false
not_moved root x y w h a b c d = ground (arith, a, b, c, d)

module _ (S : Serde) (R : Floats S) (P : Plane S) (E : EqLaws S) (F : FloatLaws S)
    (Q : PlaneLaws S R) where
  open S use {Number, get, as_f64, fle, abs, sub, zero}

  abbrev value_or_zero : Option S.F64 → S.F64
  value_or_zero o = elim o [ none ↦ zero | some x ↦ x ]

  distance_self :
      (n : Number) (o : Option S.F64)
      → as_f64 n ≡ o
      → abs (sub (value_or_zero o) (value_or_zero o)) ≡ zero
  distance_self n none h = Q.abs-sub_zero
  distance_self n (some x) h = F.abs-sub_self n x h

  tolerated :
      (o : Option (Value Number)) → abs (sub (f64_or_zero S R P o) (f64_or_zero S R P o)) ≡ zero
  tolerated none = Q.abs-sub_zero
  tolerated (some null) = Q.abs-sub_zero
  tolerated (some (bool b)) = Q.abs-sub_zero
  tolerated (some (string s)) = Q.abs-sub_zero
  tolerated (some (array vs)) = Q.abs-sub_zero
  tolerated (some (object m)) = Q.abs-sub_zero
  tolerated (some (number n)) = distance_self n (as_f64 n) refl

  is_off_self :
      (o : Option (Value Number)) → is_off S R P (f64_or_zero S R P o) (f64_or_zero S R P o) ≡ false
  is_off_self o =
      ap (S.flt (R.hundredths 50)) (tolerated o) ∙ F.lt-zero (R.hundredths 50) Q.zero-le-half

  numbers_equal_at :
      (n : Number) (o : Option S.F64) → as_f64 n ≡ o → numbers_equal S R P n n o o ≡ true
  numbers_equal_at n none h = E.number_refl n
  numbers_equal_at n (some x) h =
      ap (λ d. fle d (R.hundredths 50)) (F.abs-sub_self n x h) ∙ Q.zero-le-half

  numbers_equal_self : (n : Number) → numbers_equal S R P n n (as_f64 n) (as_f64 n) ≡ true
  numbers_equal_self n = numbers_equal_at n (as_f64 n) refl

  css_value_equal_self : (o : Option (Value Number)) → css_value_equal S R P o o ≡ true
  unfolding css_value_equal
  css_value_equal_self none = refl
  css_value_equal_self (some null) = E.eq_refl null
  css_value_equal_self (some (bool b)) = E.eq_refl (bool b)
  css_value_equal_self (some (number n)) = numbers_equal_self n
  css_value_equal_self (some (string s)) = rw (eq_refl s) refl
  css_value_equal_self (some (array vs)) = E.eq_refl (array vs)
  css_value_equal_self (some (object m)) = E.eq_refl (object m)

  differing_self : (m : Map Number) (ps : List String) → differing S R P m m ps ≡ []
  unfolding differing
  differing_self m [] = refl
  differing_self m (p ∷ ps) = rw (css_value_equal_self (get m p), differing_self m ps) refl

  xor_self : (b : Bool) → xor b b ≡ false
  xor_self true = refl
  xor_self false = refl

  unchanged_of :
      (vc : Bool) (ps : List String) (moved : Bool)
      → vc ≡ false
      → ps ≡ []
      → moved ≡ false
      → (not vc && (is_empty_list ps && not moved)) ≡ true
  unchanged_of true ps moved a b c = absurd (ground (arith, a))
  unchanged_of false ps moved a b c = rw (b, c) refl

  has_moved_self :
      (v : Value Number) → has_moved S R P (parse_element S R P v) (parse_element S R P v) ≡ false
  has_moved_self v =
      let at = get_elem? (list_or_empty S (value_at S v "r")) in
      let r = parse_element S R P v in
      not_moved (is_root S r) _ _ _ _ (is_off_self (at 0)) (is_off_self (at 1)) (is_off_self (at 2))
        (is_off_self (at 3))

  is_unchanged_self :
      (v : Value Number) → is_unchanged S R P (parse_element S R P v) (parse_element S R P v) ≡ true
  unfolding signature_diff_keys
  is_unchanged_self v =
      let r = parse_element S R P v in
      unchanged_of (xor r.visible r.visible)
        (signature_diff_keys S R P r.signature r.signature (is_root S r)) (has_moved S R P r r)
        (xor_self r.visible)
        (differing_self r.signature
          (if is_root S r then root_signature_props else effect_signature_props))
        (has_moved_self v)

  is_same-rec_or :
      (o p : Option (ElementRec S))
      → is_same S R P o o ≡ true
      → is_same S R P p p ≡ true
      → is_same S R P (rec_or S o p) (rec_or S o p) ≡ true
  is_same-rec_or none p h g = g
  is_same-rec_or (some r) p h g = h

  is_same_if :
      (b : Bool) (r : ElementRec S)
      → is_unchanged S R P r r ≡ true
      → is_same S R P (if b then some r else none) (if b then some r else none) ≡ true
  is_same_if true r h = h
  is_same_if false r h = refl

  is_same_all :
      (vs : List (Value Number)) (k : String)
      → is_same S R P (last_with S (parse_all S R P vs) k) (last_with S (parse_all S R P vs) k)
        ≡ true
  unfolding parse_all
  is_same_all [] k = refl
  is_same_all (v ∷ vs) k =
      let r = parse_element S R P v in
      is_same-rec_or (last_with S (parse_all S R P vs) k) (if_has_key S r k) (is_same_all vs k)
        (is_same_if (not (is_empty_str r.key) && str_eq r.key k) r (is_unchanged_self v))

  -- If the page is captured the same before and after the action, then the report says that it had
  -- no effect.
  pub diff_self :
      (L : MapLaws S) (page : Value Number) (target : ActionTarget S) (action : Action)
      (index limit : ℕ)
      → value_at S (diff S R P page page target action index limit) "effect"
        ≡ some (string "no_effect")
  unfolding parse_elements
  diff_self L page target action index limit =
      (diff-no_effect_iff S R P L page page target action index limit).1
        (is_same_all (list_or_empty S (value_at S page "elements")))
