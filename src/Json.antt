-- ===== src/Json.antt =====
-- JSON values as the code sees them: the enum `Value` of serde_json, and what the code calls of
-- serde_json and of `f64`, which stand outside the repository, as an interface.
mod Data
mod Interface
pub mod Collect
pub mod Floats
unfoldable pub use Data.*
pub use Interface.*
