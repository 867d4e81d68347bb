-- ===== src/Index.antt =====
-- The secondary indexes: src/adapters/index.
pub mod BTree
pub mod LabelIndex
pub mod PropertyIndex
