-- ===== src/Store.antt =====
-- The snapshot store of crates/sniff-css-mcp/src/store.rs, and `ensure_gitignored` of
-- crates/sniff-core/src/snapshot.rs.
pub mod Paths
pub mod Names
pub mod Files
