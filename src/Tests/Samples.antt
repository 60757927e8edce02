-- ===== src/Tests/Samples.antt =====
-- Nodes and values for the tests.
use sniff_css.Prelude.{ℕ, String, true, false, none, some, [], ◌∷◌}
use sniff_css.Json.{Value, number, string, array, object, Items, Map, empty, entry}
use sniff_css.Model.{NodeInfo, DiffNode, node, Forest, nil, cons}
use sniff_css.Diff.Options.{DiffOptions, no_stats}
use sniff_css.Diff.Walk.{Delta}
use sniff_css.Tests.Host.{host}

-- `{"box_model": {"width": w}}`
abbrev pub box_width : String → Map ℕ
box_width w = entry "box_model" (object (entry "width" (string w) empty)) empty

abbrev pub rect : ℕ → Value ℕ
rect x = object (
    entry "x" (number x)
      (entry "y" (number 0) (entry "width" (number 44) (entry "height" (number 20) empty))))

abbrev pub plain : String → NodeInfo ℕ
plain sel = record {
  id = 0;
  parent_id = none;
  selector = sel;
  tag = some "DIV";
  path = none;
  depth = some 0;
  rect = none;
  metrics = none;
  noticeable = none;
  hash = none;
  styles = none;
  pseudo = none;
  aria = none;
  contrast = none;
  ax = none;
  attributes = none;
}

abbrev pub styled : String → String → NodeInfo ℕ
styled sel w = record (plain sel) { styles = some (box_width w); rect = some (rect 8) }

abbrev pub leaf : NodeInfo ℕ → DiffNode ℕ
leaf i = node i nil

abbrev pub options : DiffOptions host
options = record { tolerance = 1; ignore_props = "opacity" ∷ []; ignore_structural = false }

abbrev pub quiet_options : DiffOptions host
quiet_options = record options { ignore_structural = true }

-- a list of two cards without selectors under a body, and the same with one card less
abbrev pub page : Forest ℕ
page =
    cons (node (plain "body") (cons (leaf (styled "" "44px")) (cons (leaf (styled "" "40px")) nil)))
      nil

abbrev pub shorter_page : Forest ℕ
shorter_page = cons (node (plain "body") (cons (leaf (styled "" "47px")) nil)) nil

abbrev pub blank : Delta ℕ
blank = record { out = []; stats = no_stats }

-- `{"effect": "opened", "rect": [x, 4]}`
abbrev pub effect : ℕ → Value ℕ
effect x = object (
    entry "effect" (string "opened")
      (entry "rect" (array (Items.cons (number x) (Items.cons (number 4) Items.nil))) empty))
