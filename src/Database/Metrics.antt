-- ===== src/Database/Metrics.antt =====
-- src/database/metrics.rs: the counters, which wrap at 2 ^ 64 as a release build does.
use ad_graph_db.Base.{ℕ, ◌+◌, ◌%◌, ◌^◌}

pub record DatabaseMetrics : Type 0 where
  pub queries_executed : ℕ
  pub total_query_time_ns : ℕ
  pub label_index_hits : ℕ
  pub property_index_hits : ℕ
  pub full_node_scans : ℕ
  pub full_edge_scans : ℕ
  pub cache_node_hits : ℕ
  pub cache_node_misses : ℕ
  pub cache_edge_hits : ℕ
  pub cache_edge_misses : ℕ
  pub nodes_inserted : ℕ
  pub nodes_deleted : ℕ
  pub edges_inserted : ℕ
  pub edges_deleted : ℕ
  pub compactions : ℕ
  pub transactions_committed : ℕ
  pub transactions_rolled_back : ℕ

abbrev pub new : DatabaseMetrics
new = record {
  queries_executed = 0;
  total_query_time_ns = 0;
  label_index_hits = 0;
  property_index_hits = 0;
  full_node_scans = 0;
  full_edge_scans = 0;
  cache_node_hits = 0;
  cache_node_misses = 0;
  cache_edge_hits = 0;
  cache_edge_misses = 0;
  nodes_inserted = 0;
  nodes_deleted = 0;
  edges_inserted = 0;
  edges_deleted = 0;
  compactions = 0;
  transactions_committed = 0;
  transactions_rolled_back = 0;
}

unfoldable pub add_u64 : ℕ → ℕ → ℕ
add_u64 m n = (m + n) % 2 ^ 64

unfoldable pub total_writes : DatabaseMetrics → ℕ
total_writes m =
    add_u64 (add_u64 (add_u64 m.nodes_inserted m.nodes_deleted) m.edges_inserted) m.edges_deleted
