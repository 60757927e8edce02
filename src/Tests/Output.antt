-- ===== src/Tests/Output.antt =====
-- Two nodes whose constant styles are hoisted, and a node that is written and read back.
use sniff_css.Prelude.{ℕ, ◌≡◌, refl, true, false, none, some, [], ◌∷◌}
use sniff_css.Json.{null, number, string, object, Map, empty, entry, option_eq}
use sniff_css.Model.{node}
use sniff_css.Model.Load.{from_value}
use sniff_css.Model.Defaults.{fill_styles}
use sniff_css.Output.Styles.{box_model, typography, Groups, OutputConfig, compacted_styles}
use sniff_css.Output.Hoist.{style_at, category_defaults, dedup_styles}
use sniff_css.Output.Hoist.Restored.{fill_styles-dedup_styles}
use sniff_css.Output.Snapshots.{AriaInfo, Writer, SnapshotInfo, element, nil, cons, aria_value}
use sniff_css.Output.Nodes.{node_to_json}
use sniff_css.Output.Nodes.Loaded.{loaded_info, loaded_all, from_value-node_to_json}
use sniff_css.Tests.Check.{floats}
use sniff_css.Tests.Host.{host, get, insert, remove, value_eq}
use sniff_css.Tests.Host.Laws.{host_maps, host_entries, host_equality}

abbrev config : OutputConfig
config = record {
  include_rect = true;
  include_path = true;
  include_metrics = true;
  group_by_category = true;
  compact = true;
  include_visibility = true;
  include_style_hash = true;
}

abbrev card : Map ℕ
card =
    entry "layout" (object (entry "display" (string "flex") (entry "gap" (string "4px") empty)))
      empty

abbrev panel : Map ℕ
panel =
    entry "layout" (object (entry "display" (string "flex") (entry "gap" (string "8px") empty)))
      empty

-- both have the same display
card-defaults :
    category_defaults host (card ∷ panel ∷ [])
    ≡ entry "layout" (object (entry "display" (string "flex") empty)) empty
unfolding category_defaults get insert value_eq
card-defaults = refl

panel-dedup :
    dedup_styles host panel (category_defaults host (card ∷ panel ∷ []))
    ≡ entry "layout" (object (entry "gap" (string "8px") empty)) empty
unfolding category_defaults dedup_styles get insert remove value_eq
panel-dedup = refl

fill_styles-dedup_styles_example :
    option_eq host
      (style_at host
        (fill_styles host
          (category_defaults host (card ∷ panel ∷ []))
          (dedup_styles host panel (category_defaults host (card ∷ panel ∷ []))))
        "layout"
        "display")
      (style_at host panel "layout" "display")
    ≡ true
fill_styles-dedup_styles_example =
    fill_styles-dedup_styles host host_maps host_entries host_equality (card ∷ panel ∷ []) 1
      "layout" "display" refl

-- the logical size repeats the physical one, and no outline is noise
abbrev groups : Groups
groups =
    (
      box_model,
      record { name = "block-size"; value = "10px" }
          ∷ record { name = "height"; value = "10px" }
          ∷ record { name = "outline-style"; value = "none" }
          ∷ [],
    )
    ∷ (typography, record { name = "color"; value = "red" } ∷ [])
    ∷ []

groups-compacted :
    compacted_styles host groups config
    ≡ entry "box_model"
        (object (entry "height" (string "10px") empty))
        (entry "typography" (object (entry "color" (string "red") empty)) empty)
unfolding compacted_styles get insert
groups-compacted = refl

abbrev pub writer : Writer host
writer = record { from_f64 = number; from_i64 = λ n. null; style_hash = λ v pseudo. "0f" }

abbrev aria_label : AriaInfo
aria_label = record {
  role = none;
  name = some "Close";
  focusable = true;
  aria_hidden = some "true";
  aria_expanded = none;
  aria_checked = none;
  aria_controls = none;
  aria_labelledby = none;
  aria_describedby = none;
  lang = none;
  alt = none;
  title = none;
  html_hidden = false;
  disabled = false;
  has_text = true;
}

-- the key is `aria_hidden`, with a string
aria_label-value :
    ((o : Map ℕ) × (aria_value host floats aria_label ≡ object o)
      × (get o "aria_hidden" ≡ some (string "true"))
      × (get o "ariaHidden" ≡ none))
unfolding aria_value get insert
aria_label-value = (_, refl, refl, refl)

abbrev button : SnapshotInfo host floats
button = record {
  id = 7;
  parent_id = some 3;
  tag = "BUTTON";
  selector = "#close";
  path = "body > button";
  depth = 1;
  rect = some (record { x = 0; y = 0; width = 10; height = 10 });
  metrics = none;
  noticeable = none;
  aria = some aria_label;
  effective_background = none;
  contrast = none;
  ax = none;
  attributes = some (("data-id", "c1") ∷ []);
  styles = groups;
  pseudo = [];
}

from_value-node_to_json_example :
    from_value host (
      node_to_json host floats writer config none none true
        (element button (cons (element button nil) nil)))
    ≡ node
        (loaded_info host floats host_maps writer config none none button)
        (loaded_all host floats host_maps writer config none none (cons (element button nil) nil))
from_value-node_to_json_example =
    from_value-node_to_json host floats host_maps writer config none none (λ n. refl) true button
      (cons (element button nil) nil)
