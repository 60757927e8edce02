-- ===== src/Model/Document.antt =====
-- `load_str_doc`, `extract_actions` and `extract_viewport` of crates/sniff-css-diff/src/model.rs.
use sniff_css.Prelude.{
  String, Option, none, some, List, [], ◌∷◌, ◌++◌, if◌then◌else◌, is_empty_str, trim, lines,
}
use sniff_css.Json.{Value, number, Serde}
use sniff_css.Model.Node.{Forest}
use sniff_css.Model.Load.{DiffResult, ok, ◌>>=◌, at, array_of, values_of, load_str}

module _ (S : Serde) where
  open S use {Number, F64, as_f64, from_str}

  -- `serde_json::from_str` on a trimmed line; `none` for a blank or malformed one, which is skipped
  unfoldable pub parse_line : String → Option (Value Number)
  unfolding trim
  parse_line line = if is_empty_str (trim line) then none else from_str (trim line)

  abbrev actions_of : Option (Value Number) → List (Value Number)
  actions_of none = []
  actions_of (some v) = values_of S (array_of S (at S v "__actions"))

  unfoldable pub extract_actions_from : List String → List (Value Number)
  unfolding parse_line
  extract_actions_from [] = []
  extract_actions_from (l ∷ ls) = actions_of (parse_line l) ++ extract_actions_from ls

  unfoldable pub extract_actions : String → List (Value Number)
  unfolding extract_actions_from
  extract_actions content = extract_actions_from (lines content)

  abbrev f64_at : Value Number → String → Option F64
  f64_at v k = elim (at S v k) [ some (number n) ↦ as_f64 n | _ ↦ none ]

  abbrev sizes : Option F64 → Option F64 → Option (F64 × F64)
  sizes (some w) (some h) = some (w, h)
  sizes _ _ = none

  -- the rest of the round at the first `__meta`, whose `?` end the function
  abbrev viewport_of : Value Number → Option (F64 × F64)
  viewport_of meta = elim (at S meta "viewport") [
    | none ↦ none
    | some vp ↦ sizes (f64_at vp "width") (f64_at vp "height")
  ]

  abbrev meta_of : Option (Value Number) → Option (Value Number)
  meta_of none = none
  meta_of (some v) = at S v "__meta"

  unfoldable pub extract_viewport_from : List String → Option (F64 × F64)
  unfolding parse_line
  extract_viewport_from [] = none
  extract_viewport_from (l ∷ ls) =
      let rest = extract_viewport_from ls in
      elim (meta_of (parse_line l)) [ none ↦ rest | some meta ↦ viewport_of meta ]

  unfoldable pub extract_viewport : String → Option (F64 × F64)
  unfolding extract_viewport_from
  extract_viewport content = extract_viewport_from (lines content)

  pub record DiffDocument : Type 0 where
    pub nodes : Forest Number
    pub actions : List (Value Number)
    pub viewport : Option (F64 × F64)

  unfoldable pub load_str_doc : String → DiffResult DiffDocument
  unfolding extract_actions extract_viewport
  load_str_doc content = load_str S content >>= λ nodes. ok (record {
    nodes = nodes;
    actions = extract_actions content;
    viewport = extract_viewport content;
  })
