-- ===== src/Engine/AdjacencyList.antt =====
-- src/adapters/engine/adjacency_list.rs.
pub mod Consistent
pub mod Removal
use mathlib.Core.List.{foldl}
use ad_graph_db.Base.{
  ℕ, List, [], ◌∷◌, ◌++◌, map, Bool, not, ◌||◌, Option, none, some, get_or, nat_eq, ◌==◌, length,
  retain,
}
use ad_graph_db.Base.Map
use ad_graph_db.Core.{NodeId, EdgeId}
use ad_graph_db.Engine.Port.{Neighbor, GraphEnginePort}

pub record AdjacencyListEngine : Type 0 where
  pub outgoing : List (NodeId × List Neighbor)
  pub incoming : List (NodeId × List Neighbor)
  pub edge_endpoints : List (EdgeId × (NodeId × NodeId))

abbrev pub new : AdjacencyListEngine
new = record { outgoing = []; incoming = []; edge_endpoints = [] }

unfoldable pub insert_node : NodeId → AdjacencyListEngine → AdjacencyListEngine
insert_node id g = record g {
  outgoing = Map.entry id [] (λ ns. ns) g.outgoing;
  incoming = Map.entry id [] (λ ns. ns) g.incoming;
}

unfoldable pub insert_edge :
    EdgeId → NodeId → NodeId → ℕ → AdjacencyListEngine → AdjacencyListEngine
insert_edge edge_id source target weight g = record {
  edge_endpoints = Map.insert edge_id (source, target) g.edge_endpoints;
  outgoing =
      Map.entry source []
        (λ ns. ns ++ record { node_id = target; edge_id = edge_id; weight = weight } ∷ [])
        g.outgoing;
  incoming =
      Map.entry target []
        (λ ns. ns ++ record { node_id = source; edge_id = edge_id; weight = weight } ∷ [])
        g.incoming;
}

-- `neighbors.retain(|n| n.edge_id != edge_id)`
abbrev pub without : EdgeId → List Neighbor → List Neighbor
without edge_id = retain (λ n. not (n.edge_id == edge_id))

-- The body of `remove_edge` behind its `let … else`.
unfoldable pub unlink : EdgeId → NodeId × NodeId → AdjacencyListEngine → AdjacencyListEngine
unlink edge_id (source, target) g = record {
  edge_endpoints = Map.remove edge_id g.edge_endpoints;
  outgoing = Map.update source (without edge_id) g.outgoing;
  incoming = Map.update target (without edge_id) g.incoming;
}

unfoldable pub remove_edge : EdgeId → AdjacencyListEngine → AdjacencyListEngine
remove_edge edge_id g = elim (Map.get edge_id g.edge_endpoints) [
  | none ↦ g
  | some ends ↦ unlink edge_id ends g
]

-- Does an entry of `edge_endpoints` touch the node?
abbrev pub touches : NodeId → EdgeId × (NodeId × NodeId) → Bool
touches id (eid, (source, target)) = source == id || target == id

abbrev pub edge_ids_to_remove : NodeId → AdjacencyListEngine → List EdgeId
edge_ids_to_remove id g = map (λ entry. entry.0) (retain (touches id) g.edge_endpoints)

unfoldable pub remove_node : NodeId → AdjacencyListEngine → AdjacencyListEngine
remove_node id g =
    let g' = foldl (λ h eid. remove_edge eid h) g (edge_ids_to_remove id g) in
    record g' { outgoing = Map.remove id g'.outgoing; incoming = Map.remove id g'.incoming }

unfoldable pub neighbors_outgoing : AdjacencyListEngine → NodeId → List Neighbor
neighbors_outgoing g source = get_or (Map.get source g.outgoing) []

unfoldable pub neighbors_incoming : AdjacencyListEngine → NodeId → List Neighbor
neighbors_incoming g target = get_or (Map.get target g.incoming) []

unfoldable pub all_node_ids : AdjacencyListEngine → List NodeId
all_node_ids g = Map.keys g.outgoing

unfoldable pub all_edge_ids : AdjacencyListEngine → List EdgeId
all_edge_ids g = Map.keys g.edge_endpoints

unfoldable pub node_count : AdjacencyListEngine → ℕ
node_count g = length g.outgoing

unfoldable pub edge_count : AdjacencyListEngine → ℕ
edge_count g = length g.edge_endpoints

unfoldable pub contains_node : AdjacencyListEngine → NodeId → Bool
contains_node g id = Map.contains_key id g.outgoing

-- The adapter as a value of the port.
abbrev pub port : GraphEnginePort AdjacencyListEngine
port = record {
  insert_node = insert_node;
  remove_node = remove_node;
  insert_edge = insert_edge;
  remove_edge = remove_edge;
  neighbors_outgoing = neighbors_outgoing;
  neighbors_incoming = neighbors_incoming;
  all_node_ids = all_node_ids;
  all_edge_ids = all_edge_ids;
  node_count = node_count;
  edge_count = edge_count;
  contains_node = contains_node;
}
