-- ===== src/Algorithms/Bfs.antt =====
-- src/algorithms/bfs.rs. The `while let` loop recurs on fuel, and `none` means that it ran out; the number
-- of nodes is enough (Bfs/Correct).
pub mod Scan
pub mod Correct
use mathlib.Core.List.{foldl}
use ad_graph_db.Base.{ℕ, zero, suc, List, [], ◌∷◌, ◌++◌, Bool, Option, none, some, if◌then◌else◌}
use ad_graph_db.Core.{NodeId}
use ad_graph_db.Engine.Port.{Neighbor, GraphEnginePort}
use ad_graph_db.Algorithms.Graph.{contains}

-- `if visited.insert(id) { queue.push_back(id) }`, over the pair (visited, queue).
abbrev pub discover : List NodeId × List NodeId → Neighbor → List NodeId × List NodeId
discover (visited, queue) n =
    if contains visited n.node_id
    then (visited, queue)
    else (visited ++ n.node_id ∷ [], queue ++ n.node_id ∷ [])

-- The `for` loop over the neighbors.
unfoldable pub scan : List Neighbor → List NodeId × List NodeId → List NodeId × List NodeId
scan ns s = foldl discover s ns

unfoldable pub loop :
    (NodeId → List Neighbor) → ℕ → List NodeId → List NodeId → List NodeId → Option (List NodeId)
loop outgoing zero visited [] order = some order
loop outgoing zero visited (current ∷ queue) order = none
loop outgoing (suc fuel) visited [] order = some order
loop outgoing (suc fuel) visited (current ∷ queue) order =
    let (visited', queue') = scan (outgoing current) (visited, queue) in
    loop outgoing fuel visited' queue' (order ++ current ∷ [])

unfoldable pub traverse : {E : Type 0} → GraphEnginePort E → ℕ → E → NodeId → Option (List NodeId)
traverse p fuel g start =
    if p.contains_node g start
    then loop (p.neighbors_outgoing g) fuel (start ∷ []) (start ∷ []) []
    else some []
