-- ===== src/Tests/Model.antt =====
-- Loading small documents.
use sniff_css.Prelude.{ℕ, ◌+◌, ◌*◌, List, trim, ◌≡◌, refl, false, none, some, [], ◌∷◌}
use sniff_css.Json.{number, object, empty, entry, depth}
use sniff_css.Model.{node, nil, cons}
use sniff_css.Model.Assembly.{FlatEntry, link_all, build_forest}
use sniff_css.Model.Assembly.Linked.{linked, link_all-linked}
use sniff_css.Model.Load.{Loading, nothing_loaded, load_lines, from_value, ok, err, mixed_layout}
use sniff_css.Model.Load.Layout.{kept, nodes_of_lines, load_lines-kept}
use sniff_css.Tests.Host.{host, get, read_line}
use sniff_css.Tests.Samples.{plain, leaf}

-- entry 2 stands below entry 1, entry 3 names itself as its parent, entry 4 an unknown one
abbrev entries : List (FlatEntry ℕ)
entries =
    record { id = 1; parent = none; node_of = leaf (plain "a") }
    ∷ record { id = 2; parent = some 1; node_of = leaf (plain "b") }
    ∷ record { id = 3; parent = some 3; node_of = leaf (plain "c") }
    ∷ record { id = 4; parent = some 9; node_of = leaf (plain "d") }
    ∷ []

link_all-linked_example : linked (λ i. i * i + 1) (link_all entries) ≡ 18
unfolding link_all
link_all-linked_example = link_all-linked (λ i. i * i + 1) entries

-- the entry that is its own parent is in no tree of the forest
entries-forest :
    build_forest entries
    ≡ cons (node (plain "a") (cons (leaf (plain "b")) nil)) (cons (leaf (plain "d")) nil)
unfolding build_forest
entries-forest = refl

abbrev flat_entry : FlatEntry ℕ
flat_entry = record {
  id = 2;
  parent = some 1;
  node_of = from_value host (object (entry "id" (number 2) (entry "parent_id" (number 1) empty)));
}

abbrev two_loaded : Loading host
two_loaded = record {
  roots = [];
  flat = flat_entry ∷ flat_entry ∷ [];
  mode = some false;
  style_defaults = empty;
}

two-lines :
    load_lines host ("flat" ∷ " " ∷ "meta" ∷ " flat" ∷ []) (nothing_loaded host) ≡ ok two_loaded
unfolding load_lines trim from_value read_line get depth
two-lines = refl

load_lines-kept_example :
    kept host (some false) two_loaded ≡ nodes_of_lines host ("flat" ∷ " " ∷ "meta" ∷ " flat" ∷ [])
load_lines-kept_example = load_lines-kept host ("flat" ∷ " " ∷ "meta" ∷ " flat" ∷ []) two-lines

-- a tree line after a flat one is an error
two-layouts : load_lines host ("flat" ∷ "tree" ∷ []) (nothing_loaded host) ≡ err mixed_layout
unfolding load_lines trim from_value read_line get depth
two-layouts = refl
