-- ===== src/Contrast.antt =====
-- crates/sniff-core/src/contrast.rs: colours, and the contrast of two captured values.
pub mod Strings
pub mod Colors
pub mod Derive
