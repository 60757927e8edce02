-- ===== src/Model/Defaults/Laws.antt =====
-- What a node's styles are after the defaults have been merged.
use sniff_css.Prelude.{String, ◌≡◌, ◌∙◌, Option, none, some, arith, eq_iff, Option-cases, inl, inr}
use sniff_css.Json.{Map, empty, entry, find_entry, Serde, MapLaws}
use sniff_css.Model.Defaults.{fill_props}

abbrev pub or_else : {A : Type 0} → Option A → Option A → Option A
or_else none o = o
or_else (some a) o = some a

module _ (S : Serde) (L : MapLaws S) where
  open S use {Number, get, insert}

  fill_props-find :
      (d cat : Map Number) (p : String)
      → get (fill_props S d cat) p ≡ or_else (get cat p) (find_entry d p)
  unfolding fill_props
  fill_props-find empty cat p = ground arith
  fill_props-find (entry q v d) cat p = elim (Option-cases (get cat q)) [
    | inl e ↦
        rw e (
          fill_props-find d (insert cat q v) p ∙ ground (arith, L.get-insert cat q p v, eq_iff q p))
    | inr (w, e) ↦ rw e (fill_props-find d cat p ∙ ground (arith, eq_iff q p))
  ]

  -- A property that the category has keeps its value, and any other takes the default.
  pub get-fill_props :
      (d cat : Map Number) (p : String) → get (fill_props S d cat) p ≡ or_else (get cat p) (get d p)
  get-fill_props d cat p = rw (L.get-find d p) (fill_props-find d cat p)
