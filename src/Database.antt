-- ===== src/Database.antt =====
-- src/database/: the application that holds the adapters and the indexes.
pub mod Config
pub mod Metrics
pub mod State
pub mod Methods
pub mod Reads
pub mod Statistics
pub mod Commit
pub mod Context
pub mod Coherent
pub mod Answers
pub mod Writes
