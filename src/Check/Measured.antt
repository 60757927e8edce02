-- ===== src/Check/Measured.antt =====
-- The rules of `check_node` in crates/sniff-css-check/src/rules.rs up to `empty-alt-image`.
use sniff_css.Prelude.{
  String, Bool, ◌&&◌, ◌||◌, Option, none, some, List, [], ◌∷◌, if◌then◌else◌, is_empty_str, str_eq,
}
use sniff_css.Json.{Value, Serde}
use sniff_css.Json.Floats.{Floats}
use sniff_css.Model.{DiffNode, info}
use sniff_css.Model.Load.{str_of}
use sniff_css.Contrast.Derive.{
  TriState, passed, failed, unmeasured, ContrastInfo, derive_contrast_values,
}
use sniff_css.Check.Nodes.{
  pass, warn, fail, CheckLine, or_empty, is_str, bool_of, field, style_val, float_at,
}
use sniff_css.Check.Facts.{
  or_false, concat, when, tag_name, is_visible, is_focusable, is_text, is_interactive, line,
  rect_size,
}

-- `tri_from_json`
abbrev pub tri_from_str : Option String → TriState
tri_from_str none = unmeasured
tri_from_str (some s) =
    if str_eq s "pass" then passed else if str_eq s "fail" then failed else unmeasured

abbrev reason_of : Option String → String
reason_of none = "unknown"
reason_of (some r) = r

module _ (S : Serde) (R : Floats S) where
  open S use {Number, F64, flt}
  open R use {hundredths, show, show_fixed}

  -- the captured facet, if it has a ratio
  abbrev facet_of : Option (Value Number) → Option F64 → Option (ContrastInfo S R)
  facet_of c none = none
  facet_of c (some ratio) = some (record {
    ratio = ratio;
    foreground = or_empty (str_of S (field S c "foreground"));
    background = or_empty (str_of S (field S c "background"));
    large = or_false (bool_of S (field S c "large"));
    aa = tri_from_str (str_of S (field S c "aa"));
    aaa = tri_from_str (str_of S (field S c "aaa"));
    unknown_reason = str_of S (field S c "unknown_reason");
  })

  unfoldable pub contrast_info : DiffNode Number → Option (ContrastInfo S R)
  unfolding derive_contrast_values
  contrast_info n = elim (facet_of (info n).contrast (float_at S (info n).contrast "ratio")) [
    | some i ↦ some i
    | none ↦
        derive_contrast_values S R (style_val S n "visual" "color")
          (style_val S n "visual" "background-color") (style_val S n "visual" "background-image")
          (style_val S n "typography" "font-size") (style_val S n "typography" "font-weight")
  ]

  -- the line of one level, `need` being the text of its requirement
  abbrev pub verdict_line :
      DiffNode Number → String → ContrastInfo S R → String → TriState → CheckLine
  verdict_line n check i need passed =
      line S n check pass (concat ("ratio " ∷ show i.ratio ∷ ":1 (need " ∷ need ∷ ")" ∷ []))
  verdict_line n check i need failed = line S n check fail (
      concat (
        "ratio "
        ∷ show i.ratio
        ∷ ":1 on "
        ∷ i.foreground
        ∷ " against "
        ∷ i.background
        ∷ " (need "
        ∷ need
        ∷ ")"
        ∷ []))
  verdict_line n check i need unmeasured =
      line S n check warn
        (concat ("contrast unmeasurable: " ∷ reason_of i.unknown_reason ∷ " (manual review)" ∷ []))

  abbrev aa_need : Bool → String
  aa_need large = if large then "4.5:1 large text AA" else "4.5:1 text AA"

  abbrev aaa_need : Bool → String
  aaa_need large =
      if large
      then concat (show (hundredths 450) ∷ ":1 large text AAA" ∷ [])
      else concat (show (hundredths 700) ∷ ":1 normal text AAA" ∷ [])

  abbrev verdict_lines : DiffNode Number → Option (ContrastInfo S R) → List CheckLine
  verdict_lines n none = []
  verdict_lines n (some i) =
      verdict_line n "contrast-aa" i (aa_need i.large) i.aa
      ∷ verdict_line n "contrast-aaa" i (aaa_need i.large) i.aaa
      ∷ []

  unfoldable pub check_contrast : DiffNode Number → List CheckLine
  unfolding contrast_info
  check_contrast n = if is_visible S n && is_text S n then verdict_lines n (contrast_info n) else []

  abbrev pub fixed_size : F64 → F64 → String
  fixed_size w h = concat (show_fixed 0 w ∷ "x" ∷ show_fixed 0 h ∷ "px" ∷ [])

  unfoldable pub check_target_size : DiffNode Number → List CheckLine
  check_target_size n = elim (rect_size S n) [
    | none ↦ []
    | some (w, h) ↦
        when
          (is_visible S n
            && (is_interactive S n && (flt w (hundredths 2400) || flt h (hundredths 2400))))
          (line S n "target-size" fail (
            concat
              ("interactive " ∷ tag_name S n ∷ " is " ∷ fixed_size w h ∷ " (minimum 24x24)" ∷ [])))
  ]

  abbrev suppresses_outline : DiffNode Number → Bool
  suppresses_outline n =
      let width = or_empty (style_val S n "visual" "outline-width") in
      let shadow = or_empty (style_val S n "visual" "box-shadow") in
      (str_eq width "0px" || str_eq width "0")
      && (str_eq (or_empty (style_val S n "visual" "outline-style")) "none"
          && (str_eq shadow "none" || is_empty_str shadow))

  unfoldable pub check_focus_indicator : DiffNode Number → List CheckLine
  check_focus_indicator n = when (is_focusable S n && (is_visible S n && suppresses_outline n)) (
      line S n "focus-indicator" warn
        "focusable element suppresses the outline and has no box-shadow")

  unfoldable pub check_hidden_focusable : DiffNode Number → List CheckLine
  check_hidden_focusable n =
      when
        (is_focusable S n
          && is_str (str_of S (field S (info n).noticeable "accessibility_grade")) "NONE")
        (line S n "hidden-focusable" warn
          "focusable element is not exposed to assistive tech (tab trap)")

  unfoldable pub check_empty_alt : DiffNode Number → List CheckLine
  check_empty_alt n = elim (rect_size S n) [
    | none ↦ []
    | some (w, h) ↦
        when
          (str_eq (tag_name S n) "IMG"
            && (is_visible S n
                && (is_str (str_of S (field S (info n).aria "alt")) ""
                    && (flt (hundredths 3200) w && flt (hundredths 3200) h))))
          (line S n "empty-alt-image" warn (
            concat (
              "image "
              ∷ fixed_size w h
              ∷ " has an empty alt (decorative? otherwise add a label)"
              ∷ [])))
  ]
