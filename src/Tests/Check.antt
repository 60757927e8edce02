-- ===== src/Tests/Check.antt =====
-- The rules on small pages.
use sniff_css.Prelude.{
  ℕ, ◌+◌, ◌*◌, ◌/◌, min, pos, negsuc, ◌≡◌, refl, String, true, false, none, some, [], leb, arith,
  decimal,
}
use sniff_css.Model.{NodeInfo, node, Forest, nil, cons}
use sniff_css.Json.Floats.{Floats}
use sniff_css.Check.Nodes.{rect_coords}
use sniff_css.Check.Flatten.{Flat, flattened}
use sniff_css.Check.Flatten.Subtrees.{SubtreeAt, flattened-SubtreeAt}
use sniff_css.Check.Stacking.{paints_above}
use sniff_css.Check.Stacking.Order.{paints_above_trans}
use sniff_css.Check.Occlusion.{Cover, get_cover, covers}
use sniff_css.Check.Occlusion.Covers.{Justified, covers-Justified}
use sniff_css.Check.Backdrop.{is_translucent_dark_bg}
use sniff_css.Tests.Host.{host, get, parse}
use sniff_css.Tests.Samples.{plain, rect}

-- whole numbers for floats, where a coverage of one half is `hundredths 50`, that is 0
abbrev pub floats : Floats host
floats = record {
  add = ◌+◌;
  mul = ◌*◌;
  div = ◌/◌;
  fmin = min;
  total_le = leb;
  mul_add = λ a b c. a * b + c;
  powf = λ a b. a;
  hundredths = λ n. n / 100;
  millionths = λ n. n / 1000000;
  from_uint = λ n. n;
  round = λ n. n;
  clamp = λ v lo hi. min v hi;
  as_u32 = λ n. n;
  show = decimal;
  show_fixed = λ n x. decimal x;
  as_i64 = λ n. some (pos n);
  parse_i64 = λ s. some (negsuc 0);
}

-- two boxes over each other below a body without a box
abbrev box : String → NodeInfo ℕ
box sel = record (plain sel) { rect = some (rect 8) }

abbrev boxes : Forest ℕ
boxes = cons (node (plain "body") (cons (node (box "a") nil) (cons (node (box "b") nil) nil))) nil

abbrev box_at : ℕ → Flat host
box_at i = record { node_of = node (box (decimal i)) nil; idx = i; end = i; rect = none }

flattened-SubtreeAt_example : SubtreeAt host (flattened host boxes) 0 0 (record {
  node_of = node (plain "body") (cons (node (box "a") nil) (cons (node (box "b") nil) nil));
  idx = 0;
  end = 2;
  rect = none;
})
unfolding flattened
flattened-SubtreeAt_example = flattened-SubtreeAt host boxes 0 _ (omega arith) refl

paints_above_trans_example : paints_above host floats [] (box_at 3) (box_at 1) ≡ true
unfolding paints_above get
paints_above_trans_example =
    paints_above_trans host floats [] (box_at 3) (box_at 2) (box_at 1) refl refl

-- the first box is covered by the second
abbrev a_by_b : Cover host
a_by_b = record { who = 1; by = 2; coverage = 1 }

boxes-covers : get_cover host (covers host floats (flattened host boxes)) 1 ≡ some a_by_b
unfolding covers flattened rect_coords get
boxes-covers = refl

covers-Justified_example : Justified host floats (flattened host boxes) a_by_b
covers-Justified_example = covers-Justified host floats (flattened host boxes) 1 a_by_b boxes-covers

-- scrims in both notations, and an opaque colour
scrims :
    (is_translucent_dark_bg host floats " rgba(20, 20, 20, 0)" ≡ true)
    × (is_translucent_dark_bg host floats "#00101000" ≡ true)
    × (is_translucent_dark_bg host floats "rgba(20, 120, 20, 0)" ≡ false)
    × (is_translucent_dark_bg host floats "#000000" ≡ false)
unfolding is_translucent_dark_bg parse
scrims = (refl, refl, refl, refl)
