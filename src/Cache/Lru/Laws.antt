-- ===== src/Cache/Lru/Laws.antt =====
-- The LRU cache meets the contract of the port (src/ports/cache.rs).
use ad_graph_db.Base.{◌≡◌, refl, some, none, nat_eq, nat_beq_iff, arith}
use ad_graph_db.Base.Map
use ad_graph_db.Core.{NodeId, Node}
use ad_graph_db.Cache.Port.{CacheLaws}
use ad_graph_db.Cache.Lru.{
  LruCache, next_generation, get_node, put_node, invalidate_node, get_edge, put_edge,
  invalidate_edge, clear, port,
}
use ad_graph_db.Cache.Lru.Store.{peek, get-put_in_self, get-put_in_ne, get_in-peek}

put_self_held : (n v : Node) (c : LruCache) → peek n.id (put_node n c).nodes ≡ some v → v ≡ n
unfolding put_node
put_self_held n v c h =
    ground (arith, h, get-put_in_self c.node_capacity (next_generation c) n.id n c.nodes)

invalidate_other_held :
    (id j : NodeId) (v : Node) (c : LruCache)
    → peek j (invalidate_node id c).nodes ≡ some v
    → peek j c.nodes ≡ some v
unfolding invalidate_node
invalidate_other_held id j v c h = ground (arith, h, Map.get-remove id j c.nodes)

invalidate_self : (id : NodeId) (c : LruCache) → peek id (invalidate_node id c).nodes ≡ none
unfolding invalidate_node
invalidate_self id c = ground (arith, nat_beq_iff id id, Map.get-remove id id c.nodes)

-- What the LRU cache holds of a node was put there and not invalidated since, whatever it evicts.
pub laws : CacheLaws port
unfolding get_node put_node get_edge put_edge invalidate_edge clear Map.get
laws = record {
  held = λ c id. peek id c.nodes;
  get_returns = λ id c. (get_in-peek (next_generation c) id id c.nodes).0;
  get_keeps = λ id j c. (get_in-peek (next_generation c) id j c.nodes).1;
  put_self = put_self_held;
  put_other =
      λ n v j c ne h. get-put_in_ne c.node_capacity (next_generation c) n.id j n v c.nodes ne h;
  invalidated = invalidate_self;
  invalidate_other = invalidate_other_held;
  get_edge_keeps = λ id j c. refl;
  put_edge_keeps = λ e j c. refl;
  invalidate_edge_keeps = λ id j c. refl;
  cleared = λ j c. refl;
}
