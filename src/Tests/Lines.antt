-- ===== src/Tests/Lines.antt =====
-- A page of two nodes, written and read back line by line.
use sniff_css.Prelude.{◌≡◌, refl, false, none, some, [], ◌∷◌}
use sniff_css.Model.Load.{load_lines, nothing_loaded, ok, err, mixed_layout}
use sniff_css.Output.Styles.{OutputConfig}
use sniff_css.Output.Snapshots.{SnapshotInfo, element, nil, cons}
use sniff_css.Output.Nodes.{node_styles}
use sniff_css.Output.Lines.{SniffOutcome, flatten_all, line_defaults, write_lines}
use sniff_css.Output.Lines.Flat.{entries, flat_mode, load_lines-write_lines}
use sniff_css.Output.Lines.Mixed.{load_lines-mixed_layout}
use sniff_css.Tests.Check.{floats}
use sniff_css.Tests.Host.{host, get, insert, read_line}
use sniff_css.Tests.Host.Laws.{host_maps}
use sniff_css.Tests.Output.{writer}

abbrev brief : OutputConfig
brief = record {
  include_rect = false;
  include_path = false;
  include_metrics = false;
  group_by_category = false;
  compact = false;
  include_visibility = false;
  include_style_hash = false;
}

abbrev item : SnapshotInfo host floats
item = record {
  id = 2;
  parent_id = some 1;
  tag = "LI";
  selector = "li";
  path = "ul > li";
  depth = 1;
  rect = none;
  metrics = none;
  noticeable = none;
  aria = none;
  effective_background = none;
  contrast = none;
  ax = none;
  attributes = none;
  styles = [];
  pseudo = [];
}

abbrev list : SnapshotInfo host floats
list = record item { id = 1; parent_id = none; tag = "UL"; selector = "ul"; path = "ul"; depth = 0 }

abbrev page : SniffOutcome host floats writer
page = record {
  snapshots = cons (element list (cons (element item nil) nil)) nil;
  global = none;
  ax_tree = none;
  actions = none;
}

load_lines-write_lines_example :
    load_lines host ("page" ∷ "list" ∷ "item" ∷ []) (nothing_loaded host)
    ≡ ok (record {
      roots = [];
      flat =
          entries host host_maps floats writer brief none
            (line_defaults host floats writer page brief)
            (flatten_all host floats writer page.snapshots);
      mode =
          flat_mode host host_maps floats writer
            (flatten_all host floats writer page.snapshots)
            none;
      style_defaults = line_defaults host floats writer page brief;
    })
unfolding write_lines node_styles get insert read_line
load_lines-write_lines_example =
    load_lines-write_lines host host_maps floats writer (λ n. refl) ("page" ∷ "list" ∷ "item" ∷ [])
      page brief (some (record { width = 1280; height = 720 }))
      (refl, refl, (refl, refl, (refl, refl, refl)))

-- a list with an item, and an item of its own
load_lines-mixed_layout_example :
    load_lines host ("menu" ∷ "item" ∷ []) (nothing_loaded host) ≡ err mixed_layout
unfolding write_lines node_styles get insert read_line
load_lines-mixed_layout_example =
    load_lines-mixed_layout host host_maps floats writer ("menu" ∷ "item" ∷ [])
      (record page {
        snapshots = cons (element list (cons (element item nil) nil)) (cons (element item nil) nil);
      })
      brief none list item (element item nil) nil nil refl (refl, refl, (refl, refl, refl))
