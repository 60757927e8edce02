-- ===== src/Naming.antt =====
-- crates/sniff-core/src/snapshot.rs: the names of snapshot files.
pub mod Dates
pub mod Slugs
