-- ===== src/Tests/Store.antt =====
-- The snapshot store.
use sniff_css.Prelude.{◌≡◌, refl, ◌↔◌, true, false, none, some, [], ◌∷◌}
use sniff_css.Naming.Slugs.{snapshot_file_name_at, path_of}
use sniff_css.Store.Paths.{
  PathBuf, normal, root_dir, parent_dir, components, join, has_parent_dir, resolve, ok, err,
  parent_not_allowed, escapes,
}
use sniff_css.Store.Paths.Contained.{Under, resolve-ok_iff}
use sniff_css.Store.Names.{stamp_from, parse_snapshot_name}
use sniff_css.Store.Names.Parsed.{parse_snapshot_name-snapshot_file_name_at}
use sniff_css.Store.Files.{Files, Faults, save}

abbrev store_root : PathBuf
store_root = root_dir ∷ normal "home" ∷ normal "snapshots" ∷ []

abbrev inside : PathBuf
inside = normal "a.b" ∷ normal "x.jsonl" ∷ []

components-mixed :
    components "a//./b/../c/" ≡ normal "a" ∷ normal "b" ∷ parent_dir ∷ normal "c" ∷ []
unfolding components
components-mixed = refl

resolve-parent : resolve store_root (parent_dir ∷ []) ≡ err parent_not_allowed
unfolding resolve
resolve-parent = refl

resolve-absolute : resolve store_root (root_dir ∷ normal "etc" ∷ []) ≡ err escapes
unfolding resolve
resolve-absolute = refl

resolve-ok_iff_example : (resolve store_root inside ≡ ok (join store_root inside)) ↔ (
    (join store_root inside ≡ join store_root inside)
    × (has_parent_dir (join store_root inside) ≡ false)
    × Under store_root (join store_root inside))
resolve-ok_iff_example = resolve-ok_iff store_root inside (join store_root inside)

parse_snapshot_name-unstamped : parse_snapshot_name "foo_card.jsonl" ≡ none
unfolding parse_snapshot_name
parse_snapshot_name-unstamped = refl

parse_snapshot_name-snapshot_file_name_at_example :
    parse_snapshot_name (snapshot_file_name_at "https://a.b/docs" "main" "jsonl" "20240229T123456Z")
    ≡ some ("docs-main", "20240229T123456Z")
unfolding stamp_from path_of
parse_snapshot_name-snapshot_file_name_at_example =
    parse_snapshot_name-snapshot_file_name_at "https://a.b/docs" "main" "20240229T123456" refl

abbrev no_files : Files
no_files = λ p. none

-- the content is cut off behind two characters
abbrev full_disk : Faults
full_disk = record {
  root_created = true;
  ignore_written = none;
  parent_created = true;
  temp_created = true;
  written = some 2;
  synced = true;
  renamed = true;
}

abbrev no_faults : Faults
no_faults = record full_disk { written = none }

save-runs :
    (save no_faults store_root "https://a.b/docs" "main" "jsonl" "20240229T123456Z" "{}"
      no_files).result
    ≡ ok (normal "a.b" ∷ normal "20240229T123456Z-docs-main.jsonl" ∷ [])
unfolding save
save-runs = refl
