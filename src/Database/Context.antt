-- ===== src/Database/Context.antt =====
-- `impl DatabaseContext for LayeredGraphDatabase` (src/database/layered.rs): what the query executor calls.
use ad_graph_db.Base.{ℕ, List, Option}
use ad_graph_db.Core.{NodeId}
use ad_graph_db.Query.Context.{DatabaseContext}
use ad_graph_db.Database.State.{Adapters, Database}
use ad_graph_db.Database.Methods
use ad_graph_db.Database.Reads
use ad_graph_db.Database.Statistics.{traverse, find_shortest_path}

-- The three algorithms on the engine are arguments: breadth first, depth first and Dijkstra's.
abbrev pub context :
    {E C S : Type 0}
    → Adapters E C S
    → (E → NodeId → List NodeId)
    → (E → NodeId → List NodeId)
    → (E → NodeId → NodeId → Option (List NodeId × ℕ))
    → DatabaseContext (Database E C S)
context p bfs dfs dijkstra = record {
  get_node = Methods.get_node p;
  get_all_nodes = Reads.get_all_nodes p;
  get_nodes_by_label = Reads.get_nodes_by_label p;
  get_nodes_by_property = Reads.nodes_by_property p;
  get_edge = Methods.get_edge p;
  get_all_edges = Reads.get_all_edges p;
  node_count = λ d. p.engine.node_count d.engine;
  edge_count = λ d. p.engine.edge_count d.engine;
  traverse_bfs = λ start d. traverse p bfs start d;
  traverse_dfs = λ start d. traverse p dfs start d;
  shortest_path_dijkstra = λ start goal d. find_shortest_path p dijkstra start goal d;
  stats = Reads.build_stats p;
}
