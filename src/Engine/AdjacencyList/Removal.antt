-- ===== src/Engine/AdjacencyList/Removal.antt =====
-- Removing edges and nodes.
use mathlib.Core.List.{foldl}
use mathlib.Core.List.Memᴰ
use ad_graph_db.Base.{
  ℕ, ◌≡◌, ◌≢◌, refl, List, [], ◌∷◌, map, Memᴰ, mem-retain, false, not, none, some, nat_eq,
  nat_beq_iff, ◌==◌, arith, inl, inr, ◌↔◌, Option-cases, Bool-cases, if◌then◌else◌, any, retain,
}
use ad_graph_db.Base.Map
use ad_graph_db.Base.Map.Distinct
use ad_graph_db.Core.{NodeId, EdgeId}
use ad_graph_db.Engine.Port.{Neighbor}
use ad_graph_db.Engine.AdjacencyList.{
  AdjacencyListEngine, unlink, remove_edge, remove_node, without, neighbors_outgoing,
  neighbors_incoming, touches, edge_ids_to_remove,
}
use ad_graph_db.Engine.AdjacencyList.Consistent.{IsConsistent, endpoints}

abbrev pub remove_edges : List EdgeId → AdjacencyListEngine → AdjacencyListEngine
remove_edges eids g = foldl (λ h eid. remove_edge eid h) g eids

module _ (eid s t : ℕ) (g : AdjacencyListEngine) where
  outgoing-unlink :
      (x : NodeId)
      → neighbors_outgoing (unlink eid (s, t) g) x
        ≡ (if s == x then without eid (neighbors_outgoing g x) else neighbors_outgoing g x)
  unfolding neighbors_outgoing unlink
  outgoing-unlink x = ground (arith, Map.get-update s x (without eid) g.outgoing)

  incoming-unlink :
      (x : NodeId)
      → neighbors_incoming (unlink eid (s, t) g) x
        ≡ (if t == x then without eid (neighbors_incoming g x) else neighbors_incoming g x)
  unfolding neighbors_incoming unlink
  incoming-unlink x = ground (arith, Map.get-update t x (without eid) g.incoming)

  endpoints-unlink :
      (j : EdgeId) → endpoints (unlink eid (s, t) g) j ≡ (if eid == j then none else endpoints g j)
  unfolding unlink
  endpoints-unlink j = Map.get-remove eid j g.edge_endpoints

  mem-outgoing-unlink :
      (x : NodeId) (n : Neighbor)
      → Memᴰ n (neighbors_outgoing (unlink eid (s, t) g) x)
        ↔ (Memᴰ n (neighbors_outgoing g x) × (s ≡ x → n.edge_id ≢ eid))
  mem-outgoing-unlink x n =
      rw (outgoing-unlink x)
        (ground (arith, mem-retain (λ k. not (k.edge_id == eid)) n (neighbors_outgoing g x)))

  mem-incoming-unlink :
      (x : NodeId) (n : Neighbor)
      → Memᴰ n (neighbors_incoming (unlink eid (s, t) g) x)
        ↔ (Memᴰ n (neighbors_incoming g x) × (t ≡ x → n.edge_id ≢ eid))
  mem-incoming-unlink x n =
      rw (incoming-unlink x)
        (ground (arith, mem-retain (λ k. not (k.edge_id == eid)) n (neighbors_incoming g x)))

  unlink-IsConsistent :
      endpoints g eid ≡ some (s, t) → IsConsistent g → IsConsistent (unlink eid (s, t) g)
  unlink-IsConsistent known h = record {
    out_sound = λ x n m.
        ground (arith, (mem-outgoing-unlink x n).0 m, h.out_sound x n, endpoints-unlink n.edge_id);
    in_sound = λ x n m.
        ground (arith, (mem-incoming-unlink x n).0 m, h.in_sound x n, endpoints-unlink n.edge_id);
    out_complete = λ j x y e.
        let (w, m) = h.out_complete j x y (ground (arith, endpoints-unlink j)) in
        (w, (mem-outgoing-unlink x _).1 (m, λ _. ground (arith, endpoints-unlink j)));
    in_complete = λ j x y e.
        let (w, m) = h.in_complete j x y (ground (arith, endpoints-unlink j)) in
        (w, (mem-incoming-unlink y _).1 (m, λ _. ground (arith, endpoints-unlink j)));
    distinct = unfold unlink in Map.Distinct.remove-IsMap eid g.edge_endpoints h.distinct;
  }

module _ (eid : EdgeId) (g : AdjacencyListEngine) where
  pub endpoints-remove_edge :
      (j : EdgeId) → endpoints (remove_edge eid g) j ≡ (if eid == j then none else endpoints g j)
  unfolding remove_edge
  endpoints-remove_edge j = elim (Option-cases (endpoints g eid)) [
    | inl absent ↦ rw (absent, remove_edge) (ground arith)
    | inr ((s, t), known) ↦ rw (known, remove_edge) (endpoints-unlink eid s t g j)
  ]

  -- Removing an edge keeps the three maps in agreement.
  pub remove_edge-IsConsistent : IsConsistent g → IsConsistent (remove_edge eid g)
  unfolding remove_edge
  remove_edge-IsConsistent h = elim (Option-cases (endpoints g eid)) [
    | inl absent ↦ rw (absent, remove_edge) h
    | inr ((s, t), known) ↦ rw (known, remove_edge) (unlink-IsConsistent eid s t g known h)
  ]

pub endpoints-remove_edges :
    (eids : List EdgeId) (g : AdjacencyListEngine) (j : EdgeId)
    → endpoints (remove_edges eids g) j ≡ (if any (λ x. x == j) eids then none else endpoints g j)
endpoints-remove_edges [] g j = refl
endpoints-remove_edges (eid ∷ eids) g j =
    ground (arith, endpoints-remove_edges eids (remove_edge eid g) j, endpoints-remove_edge eid g j)

pub remove_edges-IsConsistent :
    (eids : List EdgeId) (g : AdjacencyListEngine)
    → IsConsistent g
    → IsConsistent (remove_edges eids g)
remove_edges-IsConsistent [] g h = h
remove_edges-IsConsistent (eid ∷ eids) g h =
    remove_edges-IsConsistent eids (remove_edge eid g) (remove_edge-IsConsistent eid g h)

any-edge_ids :
    (id : NodeId) (j : EdgeId) (m : List (EdgeId × (NodeId × NodeId)))
    → Map.Distinct.IsMap m
    → any (λ x. x == j) (map (λ entry. entry.0) (retain (touches id) m))
      ≡ elim (Map.get j m) [ none ↦ false | some ends ↦ touches id (j, ends) ]
unfolding Map.get
any-edge_ids id j [] h = refl
any-edge_ids id j ((i, (s, t)) ∷ m) (new, h) = ground (arith, any-edge_ids id j m h)

module _ (id : NodeId) (g : AdjacencyListEngine) (h : IsConsistent g) where
  abbrev after_edges : AdjacencyListEngine
  after_edges = remove_edges (edge_ids_to_remove id g) g

  after_edges-IsConsistent : IsConsistent after_edges
  after_edges-IsConsistent = remove_edges-IsConsistent (edge_ids_to_remove id g) g h

  -- Removing a node from an engine whose maps agree removes the edges that touch it and no other.
  pub endpoints-remove_node :
      (j : EdgeId)
      → endpoints (remove_node id g) j ≡ elim (endpoints g j) [
        | none ↦ none
        | some ends ↦ if touches id (j, ends) then none else some ends
      ]
  unfolding remove_node
  endpoints-remove_node j = ground (
    arith,
    endpoints-remove_edges (edge_ids_to_remove id g) g j,
    any-edge_ids id j g.edge_endpoints h.distinct,
  )

  outgoing-remove_node :
      (x : NodeId)
      → neighbors_outgoing (remove_node id g) x
        ≡ (if id == x then [] else neighbors_outgoing after_edges x)
  unfolding neighbors_outgoing remove_node
  outgoing-remove_node x = ground (arith, Map.get-remove id x after_edges.outgoing)

  incoming-remove_node :
      (x : NodeId)
      → neighbors_incoming (remove_node id g) x
        ≡ (if id == x then [] else neighbors_incoming after_edges x)
  unfolding neighbors_incoming remove_node
  incoming-remove_node x = ground (arith, Map.get-remove id x after_edges.incoming)

  not-touched : (j s t : ℕ) → endpoints (remove_node id g) j ≡ some (s, t) → (s ≢ id) × (t ≢ id)
  not-touched j s t e = ground (arith, endpoints-remove_node j)

  -- Removing a node from an engine whose maps agree keeps the three maps in agreement.
  pub remove_node-IsConsistent : IsConsistent (remove_node id g)
  remove_node-IsConsistent = record {
    out_sound = λ x n m. elim (Bool-cases (id == x)) [
      | inl gone ↦ absurd (Memᴰ.not-nil (rw (outgoing-remove_node x, gone) at m))
      | inr kept ↦
          unfold remove_node in after.out_sound x n (rw (outgoing-remove_node x, kept) at m)
    ];
    in_sound = λ x n m. elim (Bool-cases (id == x)) [
      | inl gone ↦ absurd (Memᴰ.not-nil (rw (incoming-remove_node x, gone) at m))
      | inr kept ↦ unfold remove_node in after.in_sound x n (rw (incoming-remove_node x, kept) at m)
    ];
    out_complete = λ j x y e.
        let (x_ne, _) = not-touched j x y e in
        let other : (id == x) ≡ false = ground (arith, nat_beq_iff id x) in
        rw (outgoing-remove_node x, other) (unfold remove_node in after.out_complete j x y e);
    in_complete = λ j x y e.
        let (_, y_ne) = not-touched j x y e in
        let other : (id == y) ≡ false = ground (arith, nat_beq_iff id y) in
        rw (incoming-remove_node y, other) (unfold remove_node in after.in_complete j x y e);
    distinct = unfold remove_node in after.distinct;
  }
    where
      after : IsConsistent after_edges
      after = after_edges-IsConsistent
