-- ===== src/Lib.antt =====
-- sniff: the deterministic half of the tool, which writes, reads and compares captured snapshots.
--
-- `sniff capture` writes a snapshot as JSON lines, `sniff diff` compares two of them and `sniff
-- check` runs rules over one. The modules here follow crates/sniff-css-diff, crates/sniff-css-check and
-- crates/sniff-core, and the parts of the capture that write what they read.
--
--   Json: the enum `Value` of serde_json, its objects as entries in iteration order, and the
--     interface `Serde`: what the code calls of serde_json (numbers, `Map::get`, `Map::insert`,
--     `Map::remove`, equality) and of `f64`. The definitions take the operations as an argument and
--     the theorems take the laws (`MapLaws`, `EqLaws`, `FloatLaws`); Tests.Host is an instance that
--     satisfies them. Json.Collect is the loop over the sorted keys of two maps that diff.rs repeats.
--   Model: `DiffNode` of crates/sniff-css-diff/src/model.rs, split into `NodeInfo`, its own fields,
--     and the forest of its children (Node). Load is `from_value` and `load_str`, with the variables
--     of its loop as the record `Loading`, Assembly is `build_forest`, Defaults is
--     `apply_style_defaults`, and Document is `load_str_doc` with the readers of `__meta` and
--     `__actions`.
--   Diff: crates/sniff-css-diff/src/diff.rs. Options has its records, Values the comparison of
--     properties (`value_equal`, `prop_diff`, `style_diff`, `pseudo_diff`, `object_diff`), Facets
--     `rect_diff`, `compute_changes` and the lines for a node, Matching the two passes of
--     `diff_children`, Walk `diff_trees`, `diff_children` and `diff_node`, and Actions `diff_actions`
--     with `expand_action_values` (Actions.Expand) and `compare_action_value` (Actions.Compare).
--     `out` and `stats` are one state that is passed along; the child modules hold the proofs.
--   Check: crates/sniff-css-check/src/rules.rs. Nodes has what the rules read of a node, Flatten the
--     pre-order list with its intervals and `related`, Stacking `creates_stacking_context`,
--     `effective_z_index` and `paints_above`, Occlusion `check_occlusion` with its sweep, whose map
--     `covered` is a list of entries in ascending order of their keys, and Backdrop
--     `check_backdrop_over_modal`. Walk is `run_rules` with `check_node`, whose rules stand in Measured,
--     Layout and Texts; Facts has what it computes first, and `AncestorCtx`. Uniformity is
--     crates/sniff-css-check/src/uniformity.rs, with the properties and the norm of a group in Norms.
--   Contrast: crates/sniff-core/src/contrast.rs. Colors is `parse_color`, Derive is
--     `derive_contrast_values` with the luminance and the ratio, Strings what they use of `str`.
--     Json.Floats is the interface to the float operations of Check and Contrast, with literals as
--     hundredths and millionths.
--   Naming: crates/sniff-core/src/snapshot.rs. Dates is `civil_from_days` and the timestamp of `utc_now`,
--     Slugs is `slug`, `domain_of`, `path_of` and `snapshot_file_name_at`.
--   Output: crates/sniff-engine/src/output.rs. Styles is the JSON of computed styles with the filter
--     `compact_group`, Hoist is `category_defaults`, `flat_defaults`, `dedup_styles` and `dedup_flat`;
--     Hoist.Restored joins it with Model.Defaults, which fills the hoisted styles in again. Snapshots is
--     `ElementSnapshot` of crates/sniff-core/src/types.rs with the JSON of its facets, and Nodes is
--     `node_to_json`, whose inserts are a list of keys with their values; Nodes.Loaded reads it back.
--     Lines has the lines of the formats JsonLines and JsonLinesFlat, Lines.Flat reads the
--     latter, and Lines.Mixed is about the former.
--   Rpc: crates/sniff-cdp/src/jsonrpc.rs. Frames is `decode_incoming`, the request frame and the answer that
--     `call` takes from an envelope; Client is the state of `JsonRpcClient` with the calls that run, and
--     `step` performs one action: an action is what a task does between two suspensions, so that a
--     list of actions is an interleaving. Client.Table is the pending map.
--   Effects: `diff` of crates/sniff-engine/src/effects.rs. Geometry has its arithmetic and the interface to
--     the float operations that only it uses, Signature the comparison of CSS values, Records the elements
--     of a capture with the map by key, Entries the entries of the report, and Report the loops and the
--     report, with Ranks for the order and Summary for the classification and the text.
--   Store: crates/sniff-css-mcp/src/store.rs. Paths is what it uses of std::path, with `ensure_contained` and
--     `resolve`, Names is `parse_snapshot_name`, and Files is `save` with `ensure_gitignored` over a file system:
--     the contents of the files, and a record of which operations succeed.
--   Agents: crates/sniff-core/src/agents.rs. `upsert` is a scan over the lines, whose variables are the record
--     `Scan`; Tidy is `tidy`. `apply` is what it decides when the operations on the files succeed.
--   Tests: the interfaces over the natural numbers, runs on small pages, and the theorems applied
--     to them.
--
-- Bounds and fuel. `usize` is 64 bits wide and `saturating_add` stops at its largest value.
-- `object_diff` and `compare_action_value` recur into the values that a map lookup returns, so they
-- take fuel, one more than the nesting of the base value, and `from_value` takes the nesting of its
-- value. `fetch_add` on the ids wraps at 2^64, and the theorems on calls are of runs that are shorter.
-- `build_forest` gives `build` one unit for each entry: an entry is linked once, so that the
-- entries on the way down from a root differ. Floats are the abstract type `F64`.
--
-- Not modelled: the resolution of backgrounds in `apply_contrast_all`, the printing of delta and check
-- lines, reading files, the listing of directories in the store, I/O errors of `apply`, the script that
-- captures the page for effects.rs, the formats Json and Summary of `write_output`, the socket behind the
-- JSON-RPC client, and all else that talks to a browser or a device.
pub mod Prelude
pub mod Json
pub mod Model
pub mod Diff
pub mod Effects
pub mod Agents
pub mod Check
pub mod Contrast
pub mod Naming
pub mod Output
mod Tests
pub mod Rpc
pub mod Store
