-- ===== src/Check.antt =====
-- crates/sniff-css-check: the rules over one snapshot.
pub mod Nodes
pub mod Flatten
pub mod Stacking
pub mod Occlusion
pub mod Backdrop
pub mod Facts
pub mod Measured
pub mod Layout
pub mod Texts
pub mod Walk
pub mod Uniformity
