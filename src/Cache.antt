-- ===== src/Cache.antt =====
-- The read cache: src/ports/cache.rs, src/adapters/cache/lru.rs and no_cache.rs.
pub mod Port
pub mod Lru
pub mod NoCache
