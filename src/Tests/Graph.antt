-- ===== src/Tests/Graph.antt =====
-- A graph of two nodes, and the indexes, caches and traversals over it.
use mathlib.Core.List.Memᴰ
use ad_graph_db.Base.{
  ◌<◌, ℕ, ◌≡◌, ◌≢◌, ◌≤◌, refl, List, [], ◌∷◌, Memᴰ, true, none, some, arith, nat_eq, list_eq,
  if◌then◌else◌, ◌⊎◌,
}
use ad_graph_db.Base.Map
use ad_graph_db.Base.Map.Distinct
use ad_graph_db.Core.{NodeId, Node}
use ad_graph_db.Core.IdGenerator
use ad_graph_db.Core.IdGenerator.{next_node_id}
use ad_graph_db.Core.IdGenerator.Fresh.{seed_all, next_node_id-fresh}
use ad_graph_db.Engine.AdjacencyList
use ad_graph_db.Engine.AdjacencyList.{
  AdjacencyListEngine, insert_node, insert_edge, remove_edge, remove_node, touches, port,
  neighbors_outgoing, neighbors_incoming, contains_node,
}
use ad_graph_db.Engine.AdjacencyList.Consistent.{
  endpoints, IsConsistent, insert_node-IsConsistent, insert_edge-IsConsistent,
}
use ad_graph_db.Engine.AdjacencyList.Removal.{endpoints-remove_node, remove_node-IsConsistent}
use ad_graph_db.Cache.Lru.{Entry, Store, put_in, evict_oldest}
use ad_graph_db.Cache.Lru.Store.{IsBounded, put_in-IsBounded, evict_oldest-lem}
use ad_graph_db.Index.LabelIndex
use ad_graph_db.Index.LabelIndex.{LabelIndex}
use ad_graph_db.Index.LabelIndex.Tracks.{Tracks, insert-Tracks, remove-Tracks}
use ad_graph_db.Algorithms.Bfs.{traverse}
use ad_graph_db.Algorithms.Graph.{contains, targets}
use ad_graph_db.Algorithms.Bfs.Correct.{IsUniverse, Visits, traverse-Visits}
use ad_graph_db.Algorithms.Dfs.{depth_first}
use ad_graph_db.Algorithms.Dfs.Stack.{pending}
use ad_graph_db.Algorithms.Dfs.Correct.{depth_first-Visits}
use ad_graph_db.Transaction.{StagedOp, Transaction, seed_generator_into}
use ad_graph_db.Transaction.Staging.{seed_generator_into-fresh}

abbrev no_graph : AdjacencyListEngine
no_graph = AdjacencyList.new

no_graph-IsConsistent : IsConsistent no_graph
unfolding neighbors_outgoing neighbors_incoming Map.get
no_graph-IsConsistent = record {
  out_sound = λ s n m. absurd (Memᴰ.not-nil m);
  in_sound = λ s n m. absurd (Memᴰ.not-nil m);
  out_complete = λ j s t e. absurd (ground (arith, e));
  in_complete = λ j s t e. absurd (ground (arith, e));
  distinct = tt;
}

-- 1 → 2, by the edge 7.
abbrev two_nodes : AdjacencyListEngine
two_nodes = AdjacencyList.insert_node 2 (AdjacencyList.insert_node 1 no_graph)

abbrev one_edge : AdjacencyListEngine
one_edge = insert_edge 7 1 2 10 two_nodes

two_nodes-IsConsistent : IsConsistent two_nodes
two_nodes-IsConsistent =
    insert_node-IsConsistent 2 (insert_node-IsConsistent 1 no_graph-IsConsistent)

no_edge : endpoints two_nodes 7 ≡ none
unfolding Map.get AdjacencyList.insert_node
no_edge = refl

one_edge-IsConsistent : IsConsistent one_edge
one_edge-IsConsistent = insert_edge-IsConsistent 7 1 2 10 no_edge two_nodes-IsConsistent

insert_edge-IsConsistent_example : IsConsistent one_edge
insert_edge-IsConsistent_example = insert_edge-IsConsistent 7 1 2 10 no_edge two_nodes-IsConsistent

remove_node-IsConsistent_example : IsConsistent (remove_node 2 one_edge)
remove_node-IsConsistent_example = remove_node-IsConsistent 2 one_edge one_edge-IsConsistent

endpoints-remove_node_example : endpoints (remove_node 2 one_edge) 7 ≡ elim (endpoints one_edge 7) [
  | none ↦ none
  | some ends ↦ if touches 2 (7, ends) then none else some ends
]
endpoints-remove_node_example = endpoints-remove_node 2 one_edge one_edge-IsConsistent 7

contains_1 : port.contains_node one_edge 1 ≡ true
unfolding contains_node insert_edge AdjacencyList.insert_node Map.contains_key Map.get Map.entry
contains_1 = refl

closed :
    (u v : NodeId)
    → contains (1 ∷ 2 ∷ []) u ≡ true
    → contains (targets (port.neighbors_outgoing one_edge u)) v ≡ true
    → contains (1 ∷ 2 ∷ []) v ≡ true
unfolding neighbors_outgoing insert_edge AdjacencyList.insert_node Map.get Map.entry
closed u v hu hv = ground arith

both : IsUniverse (port.neighbors_outgoing one_edge) 1 (1 ∷ 2 ∷ [])
both = record { holds_start = refl; is_closed = closed }

traverse-Visits_example :
    (order : List NodeId) × (traverse port 3 one_edge 1 ≡ some order)
    × Visits (port.neighbors_outgoing one_edge) 1 order
traverse-Visits_example =
    traverse-Visits port one_edge 1 (1 ∷ 2 ∷ []) 3 contains_1 both (omega arith)

few_edges : pending (port.neighbors_outgoing one_edge) (1 ∷ 2 ∷ []) [] < 3
unfolding neighbors_outgoing insert_edge AdjacencyList.insert_node Map.get Map.entry
few_edges = omega arith

depth_first-Visits_example :
    (order : List NodeId) × (depth_first port 3 one_edge 1 ≡ some order)
    × Visits (port.neighbors_outgoing one_edge) 1 order
depth_first-Visits_example =
    depth_first-Visits port one_edge 1 (1 ∷ 2 ∷ []) 3 contains_1 both few_edges

next_node_id-fresh_example : (next_node_id (seed_all IdGenerator.new (4 ∷ 9 ∷ []))).0 ≢ 4
next_node_id-fresh_example =
    next_node_id-fresh IdGenerator.new (4 ∷ 9 ∷ []) 4 (omega arith, (omega arith, tt))
      (Memᴰ.head refl)

abbrev eve : Node
eve = record { id = 4; label = b'P' ∷ []; properties = [] }

abbrev staged : Transaction
staged = record { txn_id = 0; operations = StagedOp.insert_node eve ∷ []; id_gen = IdGenerator.new }

seed_generator_into-fresh_example :
    (next_node_id (seed_generator_into staged IdGenerator.new)).0 ≢ 4
seed_generator_into-fresh_example =
    seed_generator_into-fresh staged IdGenerator.new eve (omega arith, tt) (Memᴰ.head refl)

-- A store of one entry at its capacity.
abbrev one_entry : Store ℕ
one_entry = (1, record { value = 30; last_access_generation = 5 }) ∷ []

one_entry-IsMap : Map.Distinct.IsMap one_entry
one_entry-IsMap = (unfold Map.get in refl, tt)

one_entry-IsBounded : IsBounded 1 one_entry
one_entry-IsBounded = record {
  positive = omega arith;
  distinct = one_entry-IsMap;
  bounded = omega arith;
}

put_in-IsBounded_example : IsBounded 1 (put_in 1 6 2 31 one_entry)
put_in-IsBounded_example = put_in-IsBounded 1 6 2 31 one_entry one_entry-IsBounded

-- The entry of key 2 is the oldest.
abbrev two_entries : Store ℕ
two_entries =
    (1, record { value = 30; last_access_generation = 5 })
    ∷ (2, record { value = 40; last_access_generation = 4 })
    ∷ []

two_entries-IsMap : Map.Distinct.IsMap two_entries
two_entries-IsMap = (unfold Map.get in refl, (unfold Map.get in refl, tt))

evict_oldest-lem_example :
    (k : ℕ) × (e : Entry ℕ) × (Map.get k two_entries ≡ some e)
    × ((j : ℕ) (x : Entry ℕ)
        → Map.get j two_entries ≡ some x
        → e.last_access_generation ≤ x.last_access_generation)
    × (Map.get k (evict_oldest two_entries) ≡ none)
    × ((j : ℕ) → k ≢ j → Map.get j (evict_oldest two_entries) ≡ Map.get j two_entries)
evict_oldest-lem_example = evict_oldest-lem two_entries two_entries-IsMap (omega arith)

-- The empty label index, which holds no pair.
empty-Tracks : Tracks LabelIndex.new (λ id label. ⊥)
unfolding LabelIndex.get Map.get
empty-Tracks id label = (λ m. absurd (Memᴰ.not-nil m), λ x. absurd x)

insert-Tracks_example :
    Tracks (LabelIndex.insert 1 (b'P' ∷ []) LabelIndex.new) (λ x l. ⊥ ⊎ (x ≡ 1) × (l ≡ b'P' ∷ []))
insert-Tracks_example = insert-Tracks LabelIndex.new (λ id label. ⊥) empty-Tracks 1 (b'P' ∷ [])

abbrev labelled : LabelIndex
labelled = LabelIndex.insert 1 (b'P' ∷ []) LabelIndex.new

labelled-Tracks : Tracks labelled (λ x l. ⊥ ⊎ (x ≡ 1) × (l ≡ b'P' ∷ []))
labelled-Tracks = insert-Tracks LabelIndex.new (λ id label. ⊥) empty-Tracks 1 (b'P' ∷ [])

remove-Tracks_example :
    Tracks
      (LabelIndex.remove 1 (b'P' ∷ []) labelled)
      (λ x l. (⊥ ⊎ (x ≡ 1) × (l ≡ b'P' ∷ [])) × ((l ≡ b'P' ∷ []) → x ≢ 1))
remove-Tracks_example =
    remove-Tracks labelled (λ x l. ⊥ ⊎ (x ≡ 1) × (l ≡ b'P' ∷ [])) labelled-Tracks 1 (b'P' ∷ [])
