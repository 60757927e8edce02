-- ===== src/Tests/Effects.antt =====
-- The report of an action: a dialog that appears, a button that changes, a page that stays the same.
use sniff_css.Prelude.{ℕ, ◌+◌, ◌≡◌, refl, ◌↔◌, String, true, none, some}
use sniff_css.Json.{Value, bool, number, string, array, object, Items, empty, entry}
use sniff_css.Effects.Geometry.{Plane, PlaneLaws, direction_from_point}
use sniff_css.Effects.Signature.{leading_number}
use sniff_css.Effects.Records.{ElementRec, value_at}
use sniff_css.Effects.Entries.{ActionTarget}
use sniff_css.Effects.Report.{diff}
use sniff_css.Effects.Report.Summary.{click}
use sniff_css.Effects.Report.Unchanged.{is_same, element_at, diff-no_effect_iff}
use sniff_css.Effects.Report.Self.{diff_self}
use sniff_css.Tests.Host.{host, get, insert, parse}
use sniff_css.Tests.Host.Laws.{host_maps, host_equality, host_floats}
use sniff_css.Tests.Check.{floats}

abbrev plane : Plane host
plane = record {
  neg = λ x. 0;
  hypot = ◌+◌;
  to_bits = λ n. n;
  as_u64 = λ n. n;
  u64_ceil = 18446744073709551616;
  from_f64 = number;
}

plane_laws : PlaneLaws host floats
plane_laws = record { abs-sub_zero = refl; zero-le-half = refl }

abbrev quad_value : ℕ → Value ℕ
quad_value x = array (
    Items.cons (number x)
      (Items.cons (number 0) (Items.cons (number 10) (Items.cons (number 10) Items.nil))))

abbrev element : String → ℕ → String → Value ℕ
element k x colour = object (
    entry "k" (string k) (
      entry "t" (string "DIV") (
        entry "r" (quad_value x) (
          entry "v" (bool true) (entry "s" (object (entry "color" (string colour) empty)) empty)))))

abbrev page : Items ℕ → Value ℕ
page es = object (entry "elements" (array es) empty)

abbrev button_page : Value ℕ
button_page = page (Items.cons (element "button" 3 "red") Items.nil)

abbrev dialog_page : Value ℕ
dialog_page =
    page (Items.cons (element "button" 3 "red") (Items.cons (element "dialog" 40 "red") Items.nil))

abbrev clicked : ActionTarget host
clicked = record { path = "button"; rect = (3, 0, 10, 10); center = (8, 5) }

leading_number-px : leading_number host floats plane " 16px " ≡ some (16, "px")
unfolding leading_number parse
leading_number-px = refl

direction-right : direction_from_point host floats plane (40, 0, 10, 10) 8 5 ≡ "right"
direction-right = refl

diff-appeared :
    value_at host
      (diff host floats plane button_page dialog_page clicked (click "button" 5 5) 0 10)
      "effect"
    ≡ some (string "revealed")
unfolding diff get insert
diff-appeared = refl

diff-no_effect_iff_example :
    (value_at host
        (diff host floats plane button_page dialog_page clicked (click "button" 5 5) 0 10)
        "effect"
      ≡ some (string "no_effect"))
    ↔ ((k : String)
        → is_same host floats plane
            (element_at host floats plane button_page k)
            (element_at host floats plane dialog_page k)
          ≡ true)
diff-no_effect_iff_example =
    diff-no_effect_iff host floats plane host_maps button_page dialog_page clicked
      (click "button" 5 5) 0 10

diff_self_example :
    value_at host
      (diff host floats plane dialog_page dialog_page clicked (click "button" 5 5) 0 10)
      "effect"
    ≡ some (string "no_effect")
diff_self_example =
    diff_self host floats plane host_equality host_floats plane_laws host_maps dialog_page clicked
      (click "button" 5 5) 0 10

abbrev coloured : String → ElementRec host
coloured colour = record {
  key = "button";
  tag = "BUTTON";
  rect = (3, 0, 10, 10);
  visible = true;
  signature = entry "color" (string colour) empty;
  text = none;
  aria = none;
}
