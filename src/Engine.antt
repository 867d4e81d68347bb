-- ===== src/Engine.antt =====
-- The structural index: src/ports/engine.rs and its adapter src/adapters/engine/adjacency_list.rs.
pub mod Port
pub mod AdjacencyList
