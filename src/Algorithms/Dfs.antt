-- ===== src/Algorithms/Dfs.antt =====
-- src/algorithms/dfs.rs. The `while let` loop recurs on fuel, and `none` means that it ran out; one round
-- for each outgoing edge and one for the start are enough (Dfs/Correct). The top of the stack is the head
-- of its list.
pub mod Stack
pub mod Correct
use ad_graph_db.Base.{
  ℕ, zero, suc, List, [], ◌∷◌, ◌++◌, Bool, true, false, Option, none, some, if◌then◌else◌,
}
use ad_graph_db.Core.{NodeId}
use ad_graph_db.Engine.Port.{Neighbor, GraphEnginePort}
use ad_graph_db.Algorithms.Graph.{contains}

-- The `for` loop over the neighbors.
unfoldable pub push_unvisited : List NodeId → List Neighbor → List NodeId → List NodeId
push_unvisited visited [] stack = stack
push_unvisited visited (n ∷ ns) stack =
    push_unvisited visited ns (if contains visited n.node_id then stack else n.node_id ∷ stack)

-- The ids go into `visited` and into `order` together.
unfoldable pub dfs_loop :
    (NodeId → List Neighbor) → ℕ → List NodeId → List NodeId → List NodeId → Option (List NodeId)
dfs_loop outgoing zero visited [] order = some order
dfs_loop outgoing zero visited (current ∷ stack) order = none
dfs_loop outgoing (suc fuel) visited [] order = some order
dfs_loop outgoing (suc fuel) visited (current ∷ stack) order = elim (contains visited current) [
  | true ↦ dfs_loop outgoing fuel visited stack order
  | false ↦
      let visited' = visited ++ current ∷ [] in
      dfs_loop outgoing fuel visited' (push_unvisited visited' (outgoing current) stack)
        (order ++ current ∷ [])
]

unfoldable pub depth_first :
    {E : Type 0} → GraphEnginePort E → ℕ → E → NodeId → Option (List NodeId)
depth_first p fuel g start =
    if p.contains_node g start
    then dfs_loop (p.neighbors_outgoing g) fuel [] (start ∷ []) []
    else some []
