-- ===== src/Tests/Contrast.antt =====
-- The contrast of two colours, with whole numbers for floats.
use sniff_css.Prelude.{ℕ, ◌≤◌, ◌/◌, ◌≡◌, refl, true, false, none, some, arith, leb}
use sniff_css.Json.Floats.{Floats, OrderLaws}
use sniff_css.Contrast.Colors.{hex_bytes}
use sniff_css.Contrast.Derive.{
  ContrastInfo, derive_contrast_values, passed, measured, contrast_ratio,
}
use sniff_css.Contrast.Derive.Verdicts.{
  IsMeasured, derive_contrast_values-aa_of_aaa, derive_contrast_values-IsMeasured,
}
use sniff_css.Tests.Host.{host, parse}
use sniff_css.Tests.Check.{floats}

-- floats without division, where white on black has a high ratio
abbrev scaled : Floats host
scaled = record floats { div = λ a b. a; millionths = λ n. n / 1000 }

leb-of_le : (a b : ℕ) → a ≤ b → leb a b ≡ true
leb-of_le a b h = ground arith

host_order : OrderLaws host scaled
host_order = record {
  fle_trans = λ a b c p q. ground (arith, p, q);
  fle-hundredths = λ m n h. leb-of_le (m / 100) (n / 100) (omega arith);
}

-- `#fc0`, `#FFCC00` and ` ffcc00ff ` are one colour; five digits are none
hex_colors :
    (hex_bytes "fc0" ≡ hex_bytes "FFCC00")
    × (hex_bytes "fc0" ≡ hex_bytes " ffcc00ff ")
    × (hex_bytes "fc0f0" ≡ none)
unfolding hex_bytes
hex_colors = (refl, refl, refl)

-- a sign is taken for a digit
signed_color : hex_bytes "+fc" ≡ some (record { r = 0; g = 255; b = 204; a = 255 })
unfolding hex_bytes
signed_color = refl

abbrev white_on_black : ContrastInfo host floats
white_on_black = measured host floats "#fff" "rgb(0 0 0 / 100%)" false (
    contrast_ratio host floats (record { red = 1; green = 1; blue = 1 })
      (record { red = 0; green = 0; blue = 0 }))

derived :
    derive_contrast_values host floats
      (some "#fff")
      (some "rgb(0 0 0 / 100%)")
      none
      (some "16px")
      none
    ≡ some white_on_black
unfolding derive_contrast_values parse
derived = refl

derive_contrast_values-IsMeasured_example :
    IsMeasured host floats "#fff" "rgb(0 0 0 / 100%)" none (some "16px") none white_on_black
derive_contrast_values-IsMeasured_example =
    derive_contrast_values-IsMeasured host floats "#fff" "rgb(0 0 0 / 100%)" none (some "16px") none
      white_on_black derived refl

abbrev scaled_contrast : ContrastInfo host scaled
scaled_contrast = measured host scaled "#fff" "#000" false (
    contrast_ratio host scaled (record { red = 255; green = 255; blue = 255 })
      (record { red = 0; green = 0; blue = 0 }))

scaled_derived :
    derive_contrast_values host scaled (some "#fff") (some "#000") none none none
    ≡ some scaled_contrast
unfolding derive_contrast_values parse
scaled_derived = refl

derive_contrast_values-aa_of_aaa_example : scaled_contrast.aa ≡ passed
unfolding contrast_ratio
derive_contrast_values-aa_of_aaa_example =
    derive_contrast_values-aa_of_aaa host scaled host_order (some "#fff") (some "#000") none none
      none scaled_contrast scaled_derived refl
