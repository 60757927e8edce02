-- ===== src/Contrast/Derive/Verdicts.antt =====
-- What the verdicts of `derive_contrast_values` mean.
use sniff_css.Prelude.{
  String, ◌≡◌, refl, subst, Bool, true, false, Option, none, some, Bool-cases, inl, inr, arith,
}
use sniff_css.Json.{Serde}
use sniff_css.Json.Floats.{Floats, OrderLaws}
use sniff_css.Contrast.Colors.{Color, parse_color}
use sniff_css.Contrast.Derive.{
  passed, ContrastInfo, classify, unknown, measured, aa_threshold, aaa_threshold, derive_colors,
  derive_contrast_values, contrast_ratio, is_image, is_large_text,
}

module _ (S : Serde) (R : Floats S) where
  thresholds-le :
      OrderLaws S R
      → (large : Bool) → S.fle (aa_threshold S R large) (aaa_threshold S R large) ≡ true
  thresholds-le L true = L.fle-hundredths 300 450 (omega arith)
  thresholds-le L false = L.fle-hundredths 450 700 (omega arith)

  classify-le :
      OrderLaws S R
      → (ratio low high : S.F64) → S.fle low high ≡ true
      → classify S R ratio high ≡ passed
      → classify S R ratio low ≡ passed
  classify-le L ratio low high le h = elim (Bool-cases (S.fle high ratio)) [
    | inl e ↦ rw (L.fle_trans low high ratio le e) refl
    | inr e ↦ absurd (ground (arith, e, h))
  ]

  -- what holds of a result, whichever branch gave it
  abbrev Holds : (ContrastInfo S R → Type 0) → Option (ContrastInfo S R) → Type 0
  Holds P none = true ≡ true
  Holds P (some i) = P i

  -- the branches of `derive_colors`: two colours without an image or transparency are measured
  derive_colors-Holds :
      (P : ContrastInfo S R → Type 0) (fg_raw bg_raw : String) (fg bg : Option (Color S R))
      (image large : Bool)
      → ((reason : String) → P (unknown S R fg_raw bg_raw reason))
      → ((f b : Color S R)
          → fg ≡ some f
          → bg ≡ some b
          → image ≡ false
          → S.flt f.alpha (R.hundredths 100) ≡ false
          → S.flt b.alpha (R.hundredths 100) ≡ false
          → P (measured S R fg_raw bg_raw large (contrast_ratio S R f.rgb b.rgb)))
      → Holds P (derive_colors S R fg_raw bg_raw fg bg image large)
  derive_colors-Holds P fg_raw bg_raw none bg image large u m = refl
  derive_colors-Holds P fg_raw bg_raw (some f) none image large u m = refl
  derive_colors-Holds P fg_raw bg_raw (some f) (some b) true large u m = u "background image"
  derive_colors-Holds P fg_raw bg_raw (some f) (some b) false large u m =
      elim (Bool-cases (S.flt f.alpha (R.hundredths 100))) [
        | inl e ↦ rw e (u "transparent foreground")
        | inr e ↦ elim (Bool-cases (S.flt b.alpha (R.hundredths 100))) [
          | inl d ↦ rw e (rw d (u "transparent background"))
          | inr d ↦ rw e (rw d (m f b refl refl refl e d))
        ]
      ]

  -- Text that passes AAA passes AA.
  pub derive_contrast_values-aa_of_aaa :
      OrderLaws S R
      → (fg bg bg_image font_size font_weight : Option String) (i : ContrastInfo S R)
      → derive_contrast_values S R fg bg bg_image font_size font_weight ≡ some i
      → i.aaa ≡ passed
      → i.aa ≡ passed
  unfolding derive_contrast_values
  derive_contrast_values-aa_of_aaa L (some fg) (some bg) bg_image size weight i h =
      subst (Holds (λ i. i.aaa ≡ passed → i.aa ≡ passed)) h (
        derive_colors-Holds (λ i. i.aaa ≡ passed → i.aa ≡ passed) fg bg (parse_color S R fg)
          (parse_color S R bg) (is_image S R bg_image) (is_large_text S R size weight)
          (λ reason. λ p. absurd (ground (arith, p)))
          (λ f b _ _ _ _ _.
            classify-le L (contrast_ratio S R f.rgb b.rgb) _ _
              (thresholds-le L (is_large_text S R size weight))))
  derive_contrast_values-aa_of_aaa L none bg bg_image size weight i h = absurd (ground (arith, h))
  derive_contrast_values-aa_of_aaa L (some fg) none bg_image size weight i h =
      absurd (ground (arith, h))

  -- a result that is the measurement of two opaque colours that were read, with no image behind
  abbrev pub IsMeasured :
      String → String → Option String → Option String → Option String → ContrastInfo S R → Type 0
  IsMeasured fg bg bg_image font_size font_weight i =
      (f : Color S R) × (b : Color S R) × (parse_color S R fg ≡ some f)
      × (parse_color S R bg ≡ some b)
      × (is_image S R bg_image ≡ false)
      × (S.flt f.alpha (R.hundredths 100) ≡ false)
      × (S.flt b.alpha (R.hundredths 100) ≡ false)
      × (i
          ≡ measured S R fg bg (is_large_text S R font_size font_weight)
              (contrast_ratio S R f.rgb b.rgb))

  -- Contrast is measured only where it is known: unless a result carries the reason why it is
  -- unknown, both colours were read and neither is transparent, no image lies behind the text, and
  -- the result is the measurement of these two colours.
  pub derive_contrast_values-IsMeasured :
      (fg bg : String) (bg_image font_size font_weight : Option String) (i : ContrastInfo S R)
      → derive_contrast_values S R (some fg) (some bg) bg_image font_size font_weight ≡ some i
      → i.unknown_reason ≡ none
      → IsMeasured fg bg bg_image font_size font_weight i
  unfolding derive_contrast_values
  derive_contrast_values-IsMeasured fg bg bg_image size weight i h =
      subst (Holds (λ i. i.unknown_reason ≡ none → IsMeasured fg bg bg_image size weight i)) h (
        derive_colors-Holds (λ i. i.unknown_reason ≡ none → IsMeasured fg bg bg_image size weight i)
          fg bg (parse_color S R fg) (parse_color S R bg) (is_image S R bg_image)
          (is_large_text S R size weight) (λ reason. λ p. absurd (ground (arith, p)))
          (λ f b p q r s t. λ _. (f, b, p, q, r, s, t, refl)))
