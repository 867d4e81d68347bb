-- ===== src/Core.antt =====
-- The data model: src/core/value.rs, node.rs, edge.rs and error.rs.
--
-- A `u64` is a number below 2 ^ 64. An `i64` and an `f64` are kept as their 64-bit patterns, which
-- is what the codec reads and writes; `i64_key` orders the patterns of integers. A Rust `String` is
-- the list of its UTF-8 bytes. A property map is an association list.
pub mod Edges
pub mod Float
pub mod IdGenerator
pub mod Words
pub mod Nodes
pub mod Types
pub use Words.*
pub use Types.*
