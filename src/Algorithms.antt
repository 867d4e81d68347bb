-- ===== src/Algorithms.antt =====
-- The graph algorithms (src/algorithms), over any engine (src/ports/algorithm.rs).
pub mod Graph
pub mod Bfs
pub mod Dfs
