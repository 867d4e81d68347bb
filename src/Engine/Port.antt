-- ===== src/Engine/Port.antt =====
-- The port (src/ports/engine.rs): what the database and the algorithms call.
use ad_graph_db.Base.{ℕ, List, Bool}
use ad_graph_db.Core.{NodeId, EdgeId}

pub record Neighbor : Type 0 where
  pub node_id : NodeId
  pub edge_id : EdgeId
  pub weight : ℕ

-- A method with `&mut self` returns the engine that it leaves.
pub record GraphEnginePort (E : Type 0) : Type 0 where
  pub insert_node : NodeId → E → E
  pub remove_node : NodeId → E → E
  pub insert_edge : EdgeId → NodeId → NodeId → ℕ → E → E
  pub remove_edge : EdgeId → E → E
  pub neighbors_outgoing : E → NodeId → List Neighbor
  pub neighbors_incoming : E → NodeId → List Neighbor
  pub all_node_ids : E → List NodeId
  pub all_edge_ids : E → List EdgeId
  pub node_count : E → ℕ
  pub edge_count : E → ℕ
  pub contains_node : E → NodeId → Bool
