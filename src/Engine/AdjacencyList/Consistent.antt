-- ===== src/Engine/AdjacencyList/Consistent.antt =====
-- The three maps of the engine describe one graph, and every method keeps this.

use ad_graph_db.Base.{
  ℕ, ◌≡◌, List, [], ◌∷◌, ◌++◌, Memᴰ, Memᴰ-concat, Option, none, some, nat_eq, ◌==◌, arith, ◌⊎◌, inl,
  inr, Bool-cases, if◌then◌else◌, ◌↔◌,
}
use ad_graph_db.Base.Map
use ad_graph_db.Base.Map.Distinct
use ad_graph_db.Core.{NodeId, EdgeId}
use ad_graph_db.Engine.Port.{Neighbor}
use ad_graph_db.Engine.AdjacencyList.{
  AdjacencyListEngine, new, insert_node, insert_edge, neighbors_outgoing, neighbors_incoming,
}

abbrev pub endpoints : AdjacencyListEngine → EdgeId → Option (NodeId × NodeId)
endpoints g eid = Map.get eid g.edge_endpoints

-- The neighbor lists hold exactly the recorded edges, from both ends.
pub record IsConsistent (g : AdjacencyListEngine) : Type 0 where
  pub out_sound :
      (s : NodeId) (n : Neighbor)
      → Memᴰ n (neighbors_outgoing g s)
      → endpoints g n.edge_id ≡ some (s, n.node_id)
  pub in_sound :
      (t : NodeId) (n : Neighbor)
      → Memᴰ n (neighbors_incoming g t)
      → endpoints g n.edge_id ≡ some (n.node_id, t)
  pub out_complete :
      (eid s t : ℕ)
      → endpoints g eid ≡ some (s, t)
      → (w : ℕ) × Memᴰ (record { node_id = t; edge_id = eid; weight = w }) (neighbors_outgoing g s)
  pub in_complete :
      (eid s t : ℕ)
      → endpoints g eid ≡ some (s, t)
      → (w : ℕ) × Memᴰ (record { node_id = s; edge_id = eid; weight = w }) (neighbors_incoming g t)
  pub distinct : Map.Distinct.IsMap g.edge_endpoints

pub outgoing-insert_node :
    (id s : NodeId) (g : AdjacencyListEngine)
    → neighbors_outgoing (insert_node id g) s ≡ neighbors_outgoing g s
unfolding neighbors_outgoing insert_node
outgoing-insert_node id s g =
    ground (arith, Map.get-entry id s [] (λ (ns : List Neighbor). ns) g.outgoing)

pub incoming-insert_node :
    (id s : NodeId) (g : AdjacencyListEngine)
    → neighbors_incoming (insert_node id g) s ≡ neighbors_incoming g s
unfolding neighbors_incoming insert_node
incoming-insert_node id s g =
    ground (arith, Map.get-entry id s [] (λ (ns : List Neighbor). ns) g.incoming)

module _ (eid s t w : ℕ) (g : AdjacencyListEngine) where
  abbrev pub out_end : Neighbor
  out_end = record { node_id = t; edge_id = eid; weight = w }

  abbrev pub in_end : Neighbor
  in_end = record { node_id = s; edge_id = eid; weight = w }

  pub outgoing-insert_edge :
      (x : NodeId)
      → neighbors_outgoing (insert_edge eid s t w g) x
        ≡ (if s == x then neighbors_outgoing g x ++ out_end ∷ [] else neighbors_outgoing g x)
  unfolding neighbors_outgoing insert_edge
  outgoing-insert_edge x =
      ground (arith, Map.get-entry s x [] (λ (ns : List Neighbor). ns ++ out_end ∷ []) g.outgoing)

  pub incoming-insert_edge :
      (x : NodeId)
      → neighbors_incoming (insert_edge eid s t w g) x
        ≡ (if t == x then neighbors_incoming g x ++ in_end ∷ [] else neighbors_incoming g x)
  unfolding neighbors_incoming insert_edge
  incoming-insert_edge x =
      ground (arith, Map.get-entry t x [] (λ (ns : List Neighbor). ns ++ in_end ∷ []) g.incoming)

  pub endpoints-insert_edge :
      (j : EdgeId)
      → endpoints (insert_edge eid s t w g) j ≡ (if eid == j then some (s, t) else endpoints g j)
  unfolding insert_edge
  endpoints-insert_edge j = Map.get-insert eid j (s, t) g.edge_endpoints

  pub mem-outgoing-insert_edge :
      (x : NodeId) (n : Neighbor)
      → Memᴰ n (neighbors_outgoing (insert_edge eid s t w g) x)
        ↔ (Memᴰ n (neighbors_outgoing g x) ⊎ (s ≡ x) × (n ≡ out_end))
  mem-outgoing-insert_edge x n =
      rw (outgoing-insert_edge x) (ground (arith, Memᴰ-concat n out_end (neighbors_outgoing g x)))

  pub mem-incoming-insert_edge :
      (x : NodeId) (n : Neighbor)
      → Memᴰ n (neighbors_incoming (insert_edge eid s t w g) x)
        ↔ (Memᴰ n (neighbors_incoming g x) ⊎ (t ≡ x) × (n ≡ in_end))
  mem-incoming-insert_edge x n =
      rw (incoming-insert_edge x) (ground (arith, Memᴰ-concat n in_end (neighbors_incoming g x)))

-- A new node leaves the graph of edges as it is.
pub insert_node-IsConsistent :
    (id : NodeId) {g : AdjacencyListEngine} → IsConsistent g → IsConsistent (insert_node id g)
unfolding insert_node
insert_node-IsConsistent id {g} h = record {
  out_sound = λ s n m. h.out_sound s n (rw outgoing-insert_node at m);
  in_sound = λ s n m. h.in_sound s n (rw incoming-insert_node at m);
  out_complete = λ eid s t e. rw outgoing-insert_node (h.out_complete eid s t e);
  in_complete = λ eid s t e. rw incoming-insert_node (h.in_complete eid s t e);
  distinct = h.distinct;
}

-- Inserting an edge under an id that is not in use keeps the three maps in agreement.
pub insert_edge-IsConsistent :
    (eid s t w : ℕ) {g : AdjacencyListEngine}
    → endpoints g eid ≡ none
    → IsConsistent g
    → IsConsistent (insert_edge eid s t w g)
insert_edge-IsConsistent eid s t w {g} new h = record {
  out_sound = λ x n m. ground (
    arith,
    (mem-outgoing-insert_edge eid s t w g x n).0 m,
    endpoints-insert_edge eid s t w g n.edge_id,
    h.out_sound x n,
  );
  in_sound = λ x n m. ground (
    arith,
    (mem-incoming-insert_edge eid s t w g x n).0 m,
    endpoints-insert_edge eid s t w g n.edge_id,
    h.in_sound x n,
  );
  out_complete = λ j x y e. elim (Bool-cases (eid == j)) [
    | inl same ↦ (
      w,
      (mem-outgoing-insert_edge eid s t w g x _).1 (
          inr (
            ground (arith, endpoints-insert_edge eid s t w g j),
            ground (arith, endpoints-insert_edge eid s t w g j),
          )),
    )
    | inr other ↦
        let (v, m) = h.out_complete j x y (ground (arith, endpoints-insert_edge eid s t w g j)) in
        (v, (mem-outgoing-insert_edge eid s t w g x _).1 (inl m))
  ];
  in_complete = λ j x y e. elim (Bool-cases (eid == j)) [
    | inl same ↦ (
      w,
      (mem-incoming-insert_edge eid s t w g y _).1 (
          inr (
            ground (arith, endpoints-insert_edge eid s t w g j),
            ground (arith, endpoints-insert_edge eid s t w g j),
          )),
    )
    | inr other ↦
        let (v, m) = h.in_complete j x y (ground (arith, endpoints-insert_edge eid s t w g j)) in
        (v, (mem-incoming-insert_edge eid s t w g y _).1 (inl m))
  ];
  distinct = unfold insert_edge in Map.Distinct.insert-IsMap eid (s, t) g.edge_endpoints h.distinct;
}
