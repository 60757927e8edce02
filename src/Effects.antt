-- ===== src/Effects.antt =====
-- crates/sniff-engine/src/effects.rs: what an action does to the page, from two captures of it.
pub mod Geometry
pub mod Signature
pub mod Records
pub mod Entries
pub mod Report
