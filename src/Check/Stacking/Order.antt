-- ===== src/Check/Stacking/Order.antt =====
-- `paints_above` orders the entries.
use sniff_css.Prelude.{
  ℕ, ℤ, pos, negsuc, ◌≡◌, ◌≢◌, refl, true, not, Option, none, some, List, arith,
}
use sniff_css.Json.{Serde}
use sniff_css.Json.Floats.{Floats}
use sniff_css.Check.Flatten.{Flat}
use sniff_css.Check.Stacking.{above, paints_above, effective_z_index}

module _ (S : Serde) (R : Floats S) where
  above_total :
      (za zb : Option ℤ) (i j : ℕ) → i ≢ j → above S R za zb i j ≡ not (above S R zb za j i)
  above_total (some (pos a)) (some (pos b)) i j ne = ground arith
  above_total (some (pos a)) (some (negsuc b)) i j ne = refl
  above_total (some (negsuc a)) (some (pos b)) i j ne = refl
  above_total (some (negsuc a)) (some (negsuc b)) i j ne = ground arith
  above_total (some a) none i j ne = refl
  above_total none (some b) i j ne = refl
  above_total none none i j ne = ground arith

  -- Of two entries at different places exactly one paints above the other.
  pub paints_above_total :
      (flat : List (Flat S)) (a b : Flat S)
      → a.idx ≢ b.idx
      → paints_above S R flat a b ≡ not (paints_above S R flat b a)
  unfolding paints_above
  paints_above_total flat a b ne =
      above_total (effective_z_index S R flat a) (effective_z_index S R flat b) a.idx b.idx ne

  -- an order of the decision: no cycle of three
  above_trans :
      (za zb zc : Option ℤ) (i j k : ℕ)
      → above S R za zb i j ≡ true
      → above S R zb zc j k ≡ true
      → above S R za zc i k ≡ true
  above_trans (some (pos a)) (some (pos b)) (some (pos c)) i j k p q = ground (arith, p, q)
  above_trans (some (pos a)) (some (pos b)) (some (negsuc c)) i j k p q = refl
  above_trans (some (pos a)) (some (negsuc b)) (some (negsuc c)) i j k p q = refl
  above_trans (some (negsuc a)) (some (negsuc b)) (some (negsuc c)) i j k p q = ground (arith, p, q)
  above_trans (some (pos a)) (some (negsuc b)) (some (pos c)) i j k p q = absurd (ground (arith, q))
  above_trans (some (negsuc a)) (some (pos b)) zc i j k p q = absurd (ground (arith, p))
  above_trans (some (negsuc a)) (some (negsuc b)) (some (pos c)) i j k p q =
      absurd (ground (arith, q))
  above_trans (some a) (some b) none i j k p q = refl
  above_trans (some a) none (some c) i j k p q = absurd (ground (arith, q))
  above_trans (some a) none none i j k p q = refl
  above_trans none (some b) zc i j k p q = absurd (ground (arith, p))
  above_trans none none (some c) i j k p q = absurd (ground (arith, q))
  above_trans none none none i j k p q = ground (arith, p, q)

  -- Painting above is transitive: what paints above an entry that paints above a third paints above
  -- the third.
  pub paints_above_trans :
      (flat : List (Flat S)) (a b c : Flat S)
      → paints_above S R flat a b ≡ true
      → paints_above S R flat b c ≡ true
      → paints_above S R flat a c ≡ true
  unfolding paints_above
  paints_above_trans flat a b c =
      above_trans (effective_z_index S R flat a) (effective_z_index S R flat b)
        (effective_z_index S R flat c) a.idx b.idx c.idx
