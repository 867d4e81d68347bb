-- ===== src/Core/Nodes.antt =====
-- The constructors of nodes (src/core/node.rs).
use ad_graph_db.Base.{[], nat_eq, list_eq}
use ad_graph_db.Base.Map
use ad_graph_db.Core.Types.{NodeId, Text, Value, Node}

unfoldable pub new : NodeId → Text → Node
new id label = record { id = id; label = label; properties = [] }

unfoldable pub with_property : Node → Text → Value → Node
with_property n key value = record n { properties = Map.insert key value n.properties }
