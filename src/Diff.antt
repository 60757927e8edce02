-- ===== src/Diff.antt =====
-- crates/sniff-css-diff/src/diff.rs: the structural diff of two snapshots.
pub mod Options
pub mod Values
pub mod Facets
pub mod Matching
pub mod Walk
pub mod Actions
