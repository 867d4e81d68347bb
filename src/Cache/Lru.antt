-- ===== src/Cache/Lru.antt =====
-- src/adapters/cache/lru.rs. The store of nodes and that of edges are handled alike: `get_in` and
-- `put_in` are the bodies of both methods.
pub mod Store
pub mod Laws
use ad_graph_db.Base.{
  ℕ, ◌+◌, ◌%◌, ◌^◌, List, [], ◌∷◌, Bool, true, false, Option, none, some, nat_eq, ◌==◌, length, leb,
  ltb, if◌then◌else◌,
}
use mathlib.Core.Option
use ad_graph_db.Base.Map
use ad_graph_db.Core.{NodeId, EdgeId, Node, Edge}
use ad_graph_db.Cache.Port.{CachePort}

pub record Entry (V : Type 0) : Type 0 where
  pub value : V
  pub last_access_generation : ℕ

abbrev pub Store : Type 0 → Type 0
Store V = List (ℕ × Entry V)

pub record LruCache : Type 0 where
  pub node_capacity : ℕ
  pub edge_capacity : ℕ
  pub nodes : Store Node
  pub edges : Store Edge
  pub generation : ℕ

-- `none` where one of the two assertions fails.
unfoldable pub new : ℕ → ℕ → Option LruCache
new node_capacity edge_capacity =
    if ltb 0 node_capacity
    then if ltb 0 edge_capacity
      then some (record {
        node_capacity = node_capacity;
        edge_capacity = edge_capacity;
        nodes = [];
        edges = [];
        generation = 0;
      })
      else none
    else none

abbrev pub next_generation : LruCache → ℕ
next_generation c = (c.generation + 1) % 2 ^ 64

module _ {V : Type 0} where
  -- `min_by_key`: the first entry with the least stamp, from the best so far.
  unfoldable pub oldest : ℕ × Entry V → Store V → ℕ × Entry V
  oldest best [] = best
  oldest best (e ∷ store) =
      oldest (if ltb e.1.last_access_generation best.1.last_access_generation then e else best)
        store

  unfoldable pub evict_oldest : Store V → Store V
  unfolding oldest
  evict_oldest [] = []
  evict_oldest (e ∷ store) = Map.remove (oldest e store).0 (e ∷ store)

  -- The body of `get_node` and `get_edge`, behind the new stamp.
  unfoldable pub get_in : ℕ → ℕ → Store V → Option V × Store V
  get_in gen id store = elim (Map.get id store) [
    | none ↦ (none, store)
    | some e ↦ (some e.value, Map.update id (λ x. record x { last_access_generation = gen }) store)
  ]

  -- Evict before inserting to stay at capacity.
  unfoldable pub make_room : ℕ → Store V → Store V
  make_room capacity store = if leb capacity (length store) then evict_oldest store else store

  -- The body of `put_node` and `put_edge`, behind the new stamp.
  unfoldable pub put_in : ℕ → ℕ → ℕ → V → Store V → Store V
  put_in capacity gen id v store = elim (Map.get id store) [
    | some _ ↦ Map.update id (λ _. record { value = v; last_access_generation = gen }) store
    | none ↦
        Map.insert id (record { value = v; last_access_generation = gen })
          (make_room capacity store)
  ]

unfoldable pub get_node : NodeId → LruCache → Option Node × LruCache
get_node id c =
    let gen = next_generation c in
    let (found, nodes) = get_in gen id c.nodes in
    (found, record c { nodes = nodes; generation = gen })

unfoldable pub put_node : Node → LruCache → LruCache
put_node n c =
    let gen = next_generation c in
    record c { nodes = put_in c.node_capacity gen n.id n c.nodes; generation = gen }

unfoldable pub invalidate_node : NodeId → LruCache → LruCache
invalidate_node id c = record c { nodes = Map.remove id c.nodes }

unfoldable pub get_edge : EdgeId → LruCache → Option Edge × LruCache
get_edge id c =
    let gen = next_generation c in
    let (found, edges) = get_in gen id c.edges in
    (found, record c { edges = edges; generation = gen })

unfoldable pub put_edge : Edge → LruCache → LruCache
put_edge e c =
    let gen = next_generation c in
    record c { edges = put_in c.edge_capacity gen e.id e c.edges; generation = gen }

unfoldable pub invalidate_edge : EdgeId → LruCache → LruCache
invalidate_edge id c = record c { edges = Map.remove id c.edges }

unfoldable pub clear : LruCache → LruCache
clear c = record c { nodes = []; edges = [] }

abbrev pub port : CachePort LruCache
port = record {
  get_node = get_node;
  put_node = put_node;
  invalidate_node = invalidate_node;
  get_edge = get_edge;
  put_edge = put_edge;
  invalidate_edge = invalidate_edge;
  clear = clear;
}
