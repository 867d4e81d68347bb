-- ===== src/Cache/Port.antt =====
-- The port (src/ports/cache.rs), and what the database relies on: a cache may forget, but what it
-- returns was put there and not invalidated since.
use ad_graph_db.Base.{◌≡◌, ◌≢◌, Option, some, none}
use ad_graph_db.Core.{NodeId, EdgeId, Node, Edge}

pub record CachePort (C : Type 0) : Type 0 where
  pub get_node : NodeId → C → Option Node × C
  pub put_node : Node → C → C
  pub invalidate_node : NodeId → C → C
  pub get_edge : EdgeId → C → Option Edge × C
  pub put_edge : Edge → C → C
  pub invalidate_edge : EdgeId → C → C
  pub clear : C → C

-- The contract on nodes: `held` is what the cache holds of a node. A lookup returns it and keeps it,
-- an insertion may evict others, and nothing else appears.
pub record CacheLaws {C : Type 0} (p : CachePort C) : Type 0 where
  pub held : C → NodeId → Option Node
  pub get_returns : (id : NodeId) (c : C) → (p.get_node id c).0 ≡ held c id
  pub get_keeps : (id j : NodeId) (c : C) → held (p.get_node id c).1 j ≡ held c j
  pub put_self : (n v : Node) (c : C) → held (p.put_node n c) n.id ≡ some v → v ≡ n
  pub put_other :
      (n v : Node) (j : NodeId) (c : C)
      → n.id ≢ j
      → held (p.put_node n c) j ≡ some v
      → held c j ≡ some v
  pub invalidated : (id : NodeId) (c : C) → held (p.invalidate_node id c) id ≡ none
  pub invalidate_other :
      (id j : NodeId) (v : Node) (c : C)
      → held (p.invalidate_node id c) j ≡ some v
      → held c j ≡ some v
  pub get_edge_keeps : (id : EdgeId) (j : NodeId) (c : C) → held (p.get_edge id c).1 j ≡ held c j
  pub put_edge_keeps : (e : Edge) (j : NodeId) (c : C) → held (p.put_edge e c) j ≡ held c j
  pub invalidate_edge_keeps :
      (id : EdgeId) (j : NodeId) (c : C) → held (p.invalidate_edge id c) j ≡ held c j
  pub cleared : (j : NodeId) (c : C) → held (p.clear c) j ≡ none
