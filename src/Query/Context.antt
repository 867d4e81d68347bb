-- ===== src/Query/Context.antt =====
-- The port that the executor uses (src/ports/query_context.rs) and its results (src/query/result.rs).
-- A method with `&mut self` leaves a new database, also where it fails.
use ad_graph_db.Base.{ℕ, List, Option}
use ad_graph_db.Core.{NodeId, EdgeId, Text, Value, Node, Edge, Result}
use ad_graph_db.Query.Ast.{ComparisonOp}
use ad_graph_db.Query.Planner.{DatabaseStats}

pub record DatabaseContext (D : Type 0) : Type 0 where
  pub get_node : NodeId → D → Result (Option Node) × D
  pub get_all_nodes : D → Result (List Node) × D
  pub get_nodes_by_label : Text → D → Result (List Node) × D
  pub get_nodes_by_property : Text → ComparisonOp → Value → D → Result (List Node) × D
  pub get_edge : EdgeId → D → Result (Option Edge) × D
  pub get_all_edges : D → Result (List Edge) × D
  pub node_count : D → ℕ
  pub edge_count : D → ℕ
  pub traverse_bfs : NodeId → D → List NodeId
  pub traverse_dfs : NodeId → D → List NodeId
  pub shortest_path_dijkstra : NodeId → NodeId → D → Option (List NodeId × ℕ)
  pub stats : D → DatabaseStats

pub data QueryResult : Type 0 where
  nodes : List Node → QueryResult
  edges : List Edge → QueryResult
  traversal : List NodeId → QueryResult
  path : List NodeId → ℕ → QueryResult
  single_node : Option Node → QueryResult
  single_edge : Option Edge → QueryResult
  count : ℕ → QueryResult
  empty : QueryResult
