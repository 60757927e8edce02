-- ===== src/Rpc.antt =====
-- The JSON-RPC client of crates/sniff-cdp/src/jsonrpc.rs.
pub mod Frames
pub mod Client
