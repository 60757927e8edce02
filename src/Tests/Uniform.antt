-- ===== src/Tests/Uniform.antt =====
-- Cards of the same size, and one that is narrower.
use sniff_css.Prelude.{ℕ, ◌+◌, ◌/◌, ◌≡◌, refl, decimal, String, some, List, [], ◌∷◌}
use sniff_css.Model.{DiffNode}
use sniff_css.Check.Uniformity.Norms.{flat_props}
use sniff_css.Check.Uniformity.{check_uniformity, instances_of}
use sniff_css.Check.Uniformity.Justified.{Sound, check_uniformity-Sound}
use sniff_css.Check.Uniformity.Uniform.{check_uniformity_same}
use sniff_css.Tests.Host.{host, get, parse}
use sniff_css.Tests.Samples.{plain, box_width, leaf}
use sniff_css.Tests.Check.{floats}

abbrev halfway : ℕ → ℕ → ℕ
halfway a b = (a + b) / 2

abbrev card : String → String → DiffNode ℕ
card sel w = leaf (record (plain sel) { styles = some (box_width w) })

abbrev cards : List (DiffNode ℕ)
cards = card "a" "300px" ∷ card "b" "300px" ∷ card "c" "280px" ∷ []

abbrev same_cards : List (DiffNode ℕ)
same_cards = card "a" "300px" ∷ card "b" "300px" ∷ []

check_uniformity-narrow :
    (check_uniformity host floats halfway 1 cards).outliers
    ≡ record {
      selector = "c";
      deviations =
          record {
            property = "box_model.width";
            norm = some "300px";
            value = "280px";
            magnitude = some 20;
          }
          ∷ [];
    }
      ∷ []
unfolding check_uniformity get parse decimal
check_uniformity-narrow = refl

check_uniformity-Sound_example :
    Sound host floats halfway 1
      (instances_of host floats halfway 1 cards)
      (check_uniformity host floats halfway 1 cards).outliers
check_uniformity-Sound_example = check_uniformity-Sound host floats halfway 1 cards

check_uniformity_same_example : (check_uniformity host floats halfway 1 same_cards).outliers ≡ []
unfolding flat_props get
check_uniformity_same_example =
    check_uniformity_same host floats halfway 1 (("box_model.width", some "300px") ∷ []) same_cards
      (refl, (refl, refl))
