-- ===== src/Output.antt =====
-- crates/sniff-engine/src/output.rs: the JSON that a capture writes.
pub mod Tables
pub mod Styles
pub mod Hoist
pub mod Snapshots
pub mod Nodes
pub mod Lines
