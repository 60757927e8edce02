-- ===== src/Model.antt =====
-- crates/sniff-css-diff/src/model.rs: the snapshot node and the loading of JSONL.
mod Node
pub mod Assembly
pub mod Defaults
pub mod Load
pub mod Document
pub use Node.*
