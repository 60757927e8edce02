-- ===== src/Check/Backdrop.antt =====
-- `check_backdrop_over_modal` of crates/sniff-css-check/src/rules.rs.
use Prim.Native.Char.{Char, code}
use Prim.Native.String.{◌++◌ as str_append}
use sniff_css.Prelude.{
  ℕ, ◌+◌, ◌*◌, ◌-◌, ℤ, negsuc, String, Bool, true, false, ◌&&◌, ◌||◌, not, Option, none, some, List,
  [], ◌∷◌, ◌++◌, ltb, ◌==◌, decimal, if◌then◌else◌, contains, str_eq, trim, is_empty_str,
}
use sniff_css.Contrast.Strings.{strip_prefix, onto_first, hex_digit}
use sniff_css.Json.{Serde}
use sniff_css.Model.{Forest, info}
use sniff_css.Json.Floats.{Floats, f64_to_u32}
use sniff_css.Check.Nodes.{
  CheckLine, fail, Rect, interactive_tags, text_tags, or_empty, is_bool, bool_of, field, style_val,
  display_visible, node_z_index,
}
use sniff_css.Check.Flatten.{Flat, flattened, related}
use sniff_css.Check.Occlusion.{intersection}

-- `s.trim_end_matches(')')`
unfoldable pub trim_end_parens : String → String
trim_end_parens String.[] = String.[]
trim_end_parens (String.◌∷◌ c s) =
    let rest = trim_end_parens s in
    if code c == b')' && is_empty_str rest then String.[] else String.◌∷◌ c rest

-- `s.splitn(cuts + 1, ',')`
unfoldable pub split_commas : ℕ → String → List String
split_commas cuts String.[] = "" ∷ []
split_commas cuts (String.◌∷◌ c s) =
    let is_comma = code c == b',' in
    let rest = split_commas (if is_comma then cuts - 1 else cuts) s in
    if is_comma && ltb 0 cuts then "" ∷ rest else onto_first c rest

abbrev two_digits : Option ℕ → Option ℕ → Option ℕ
two_digits (some a) (some b) = some (a * 16 + b)
two_digits _ _ = none

-- `u8::from_str_radix(s, 16)` of two characters; a sign `+` is accepted
unfoldable pub hex_byte : Char → Char → Option ℕ
unfolding hex_digit
hex_byte c d = if code c == b'+' then hex_digit d else two_digits (hex_digit c) (hex_digit d)

module _ (S : Serde) (R : Floats S) where
  open S use {Number, F64, parse_f64, fle, flt}
  open R use {mul, div, hundredths, from_uint}

  -- `(0.05..1.0).contains(&a)`
  abbrev pub is_translucent : F64 → Bool
  is_translucent a = fle (hundredths 5) a && flt a (hundredths 100)

  abbrev pub is_dark : F64 → Bool
  is_dark c = flt c (hundredths 9000)

  -- a component that does not parse is left out
  abbrev dark_part : String → Bool
  dark_part s = elim (parse_f64 (trim s)) [ none ↦ true | some c ↦ is_dark c ]

  abbrev translucent_part : String → Bool
  translucent_part s = elim (parse_f64 (trim s)) [ none ↦ false | some a ↦ is_translucent a ]

  abbrev dark_rgba : List String → Bool
  dark_rgba (r ∷ g ∷ b ∷ a ∷ []) =
      (dark_part r && (dark_part g && dark_part b)) && translucent_part a
  dark_rgba _ = false

  abbrev dark_bytes : Option ℕ → Option ℕ → Option ℕ → Option ℕ → Bool
  dark_bytes (some r) (some g) (some b) (some a) =
      (is_dark (from_uint r) && (is_dark (from_uint g) && is_dark (from_uint b)))
      && is_translucent (div (from_uint a) (hundredths 25500))
  dark_bytes _ _ _ _ = false

  -- `#rrggbbaa`: the nine bytes are nine characters, as one outside ASCII is no digit
  abbrev dark_hex : String → Bool
  dark_hex
        (String.◌∷◌ h (
          String.◌∷◌ r1 (
            String.◌∷◌ r2 (
              String.◌∷◌ g1 (
                String.◌∷◌ g2
                  (String.◌∷◌ b1 (String.◌∷◌ b2 (String.◌∷◌ a1 (String.◌∷◌ a2 String.[]))))))))) =
      code h == b'#'
      && dark_bytes (hex_byte r1 r2) (hex_byte g1 g2) (hex_byte b1 b2) (hex_byte a1 a2)
  dark_hex _ = false

  unfoldable pub is_translucent_dark_bg : String → Bool
  unfolding strip_prefix trim_end_parens split_commas hex_byte trim
  is_translucent_dark_bg bg = elim (strip_prefix "rgba(" (trim bg)) [
    | some inner ↦ dark_rgba (split_commas 3 (trim_end_parens inner))
    | none ↦ dark_hex (trim bg)
  ]

  abbrev covers_viewport : F64 → F64 → Rect S → Bool
  covers_viewport vp_w vp_h r =
      fle (mul vp_w (hundredths 80)) r.w && fle (mul vp_h (hundredths 80)) r.h

  unfoldable pub is_backdrop : F64 → F64 → Flat S → Bool
  unfolding is_translucent_dark_bg
  is_backdrop vp_w vp_h f = elim f.rect [
    | none ↦ false
    | some r ↦
        if not (
          str_eq (or_empty (style_val S f.node_of "layout" "position")) "fixed"
          || covers_viewport vp_w vp_h r)
        then false
        else is_translucent_dark_bg (or_empty (style_val S f.node_of "visual" "background-color"))
          && not (is_bool (display_visible S f.node_of) false)
  ]

  abbrev pub is_modal_content : Flat S → Bool
  is_modal_content f =
      let tag = or_empty (info f.node_of).tag in
      contains interactive_tags tag
      || (is_bool (bool_of S (field S (info f.node_of).aria "has_text")) true
          || contains text_tags tag)

  abbrev is_negative : Option ℤ → Bool
  is_negative (some (negsuc n)) = true
  is_negative _ = false

  abbrev backdrop_line : Flat S → Flat S → F64 → CheckLine
  backdrop_line bf mf cov = record {
    check = "backdrop-over-modal";
    selector = (info mf.node_of).selector;
    tag = (info mf.node_of).tag;
    status = fail;
    evidence = str_append (decimal (f64_to_u32 S R (mul cov (hundredths 10000)))) (
        str_append "% of " (
          str_append (info mf.node_of).selector (
            str_append " is covered by the modal backdrop " (
              str_append (info bf.node_of).selector
                " — the dialog paints below its own dark scrim (negative z-index); check the stacking order"))));
  }

  -- the body of the inner loop behind the first guards
  abbrev modal_lines : Flat S → Flat S → Rect S → Rect S → List CheckLine
  modal_lines bf mf b m = elim (intersection S R b m) [
    | none ↦ []
    | some inter ↦
        let cov = div inter (mul m.w m.h) in
        if flt cov (hundredths 50)
        then []
        else if is_negative (node_z_index S R mf.node_of)
        then backdrop_line bf mf cov ∷ []
        else []
  ]

  unfoldable pub modals_under : Flat S → Rect S → ℕ → ℕ → List (Flat S) → List CheckLine
  unfolding intersection node_z_index
  modals_under bf b bi mi [] = []
  modals_under bf b bi mi (mf ∷ mfs) =
      let rest = modals_under bf b bi (mi + 1) mfs in
      (if bi == mi || not (is_modal_content mf)
        then []
        else if not (related S bf mf)
        then []
        else elim mf.rect [ none ↦ [] | some m ↦ modal_lines bf mf b m ])
      ++ rest

  unfoldable pub backdrops_from : F64 → F64 → List (Flat S) → ℕ → List (Flat S) → List CheckLine
  unfolding is_backdrop modals_under
  backdrops_from vp_w vp_h flat bi [] = []
  backdrops_from vp_w vp_h flat bi (bf ∷ bfs) =
      let rest = backdrops_from vp_w vp_h flat (bi + 1) bfs in
      (if is_backdrop vp_w vp_h bf
        then elim bf.rect [ none ↦ [] | some b ↦ modals_under bf b bi 0 flat ]
        else [])
      ++ rest

  unfoldable pub check_backdrop_over_modal : Forest Number → Option (F64 × F64) → List CheckLine
  unfolding backdrops_from flattened
  check_backdrop_over_modal nodes none = []
  check_backdrop_over_modal nodes (some (vp_w, vp_h)) =
      let flat = flattened S nodes in backdrops_from vp_w vp_h flat 0 flat
