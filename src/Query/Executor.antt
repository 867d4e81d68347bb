-- ===== src/Query/Executor.antt =====
-- src/query/executor.rs.
pub mod Sound
use ad_graph_db.Base.{ℕ, List, [], Bool, Option, none, some, get_or, retain}
use ad_graph_db.Core.{Node, Edge, Text, Result, ok, err}
use ad_graph_db.Core.Float.{FloatOps}
use ad_graph_db.Query.Ast.{
  TraversalKind, bfs, dfs, NodeFilter, EdgeFilter, QueryCommand, node_matches, edge_matches,
}
use ad_graph_db.Query.Planner.{
  ExecutionPlan, property_index_scan, label_index_scan, full_node_scan, full_edge_scan, node_lookup,
  edge_lookup, traverse, shortest_path, count_nodes, count_edges, plan,
}
use ad_graph_db.Query.Context.{
  DatabaseContext, QueryResult, nodes, edges, traversal, path, single_node, single_edge, count,
  empty,
}

-- `?` behind a call, and the value that follows.
abbrev pub map_result : {D A : Type 0} → (A → QueryResult) → Result A × D → Result QueryResult × D
map_result g (ok a, d) = (ok (g a), d)
map_result g (err e, d) = (err e, d)

abbrev pub beside :
    {D : Type 0} → ExecutionPlan → Result QueryResult × D → Result (QueryResult × ExecutionPlan) × D
beside chosen (ok r, d) = (ok (r, chosen), d)
beside chosen (err e, d) = (err e, d)

module _ (f : FloatOps) {D : Type 0} (ctx : DatabaseContext D) where
  abbrev pub keep_nodes : NodeFilter → List Node → QueryResult
  keep_nodes filter ns = nodes (retain (node_matches f filter) ns)

  abbrev pub keep_edges : EdgeFilter → List Edge → QueryResult
  keep_edges filter es = edges (retain (edge_matches f filter) es)

  abbrev pub path_result : Option (List ℕ × ℕ) → QueryResult
  path_result none = empty
  path_result (some (ids, weight)) = path ids weight

  unfoldable pub execute_plan : ExecutionPlan → D → Result QueryResult × D
  execute_plan (property_index_scan field op value filter) d =
      map_result (keep_nodes filter) (ctx.get_nodes_by_property field op value d)
  execute_plan (label_index_scan _ filter) d =
      map_result (keep_nodes filter) (ctx.get_nodes_by_label (get_or filter.label []) d)
  execute_plan (full_node_scan filter) d = map_result (keep_nodes filter) (ctx.get_all_nodes d)
  execute_plan (full_edge_scan filter) d = map_result (keep_edges filter) (ctx.get_all_edges d)
  execute_plan (node_lookup id) d = map_result single_node (ctx.get_node id d)
  execute_plan (edge_lookup id) d = map_result single_edge (ctx.get_edge id d)
  execute_plan (traverse bfs start) d = (ok (traversal (ctx.traverse_bfs start d)), d)
  execute_plan (traverse dfs start) d = (ok (traversal (ctx.traverse_dfs start d)), d)
  execute_plan (shortest_path start goal) d =
      (ok (path_result (ctx.shortest_path_dijkstra start goal d)), d)
  execute_plan count_nodes d = (ok (count (ctx.node_count d)), d)
  execute_plan count_edges d = (ok (count (ctx.edge_count d)), d)

  unfoldable pub execute : QueryCommand → D → Result QueryResult × D
  execute command d = execute_plan (plan f command (ctx.stats d)) d

  -- The result beside the plan that was chosen.
  unfoldable pub execute_with_explain : QueryCommand → D → Result (QueryResult × ExecutionPlan) × D
  execute_with_explain command d =
      let chosen = plan f command (ctx.stats d) in beside chosen (execute_plan chosen d)
