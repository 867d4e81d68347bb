-- ===== src/Core/Edges.antt =====
-- The constructors of edges (src/core/edge.rs).
use ad_graph_db.Base.{ℕ, [], nat_eq, list_eq}
use ad_graph_db.Base.Map
use ad_graph_db.Core.Types.{NodeId, EdgeId, Text, Value, Edge}

unfoldable pub new : EdgeId → NodeId → NodeId → Text → ℕ → Edge
new id source target label weight = record {
  id = id;
  source = source;
  target = target;
  label = label;
  weight = weight;
  properties = [];
}

unfoldable pub with_property : Edge → Text → Value → Edge
with_property e key value = record e { properties = Map.insert key value e.properties }
