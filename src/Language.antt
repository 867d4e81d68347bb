-- ===== src/Language.antt =====
-- The two query languages (src/query/languages/): from a text to a command of src/query/ast.rs.
pub mod Chars
pub mod Parser
pub mod Simple
pub mod Cypher
pub mod Agree
