-- ===== src/Algorithms/Dfs/Correct.antt =====
-- The search returns, visits each reachable node once, and visits nothing else.
use ad_graph_db.Base.{
  ℕ, zero, suc, ◌+◌, ◌≤◌, ◌<◌, ◌≡◌, refl, List, [], ◌∷◌, ◌++◌, true, false, ◌||◌, some, nat_eq,
  nat_beq_iff, ◌==◌, length, arith, inl, inr, Bool-cases,
}
use ad_graph_db.Core.{NodeId}
use ad_graph_db.Engine.Port.{Neighbor, GraphEnginePort}
use ad_graph_db.Algorithms.Graph.{
  contains, IsDistinct, targets, Reach, here, step, contains-append, IsDistinct-concat,
}
use ad_graph_db.Algorithms.Bfs.Correct.{IsUniverse, Visits, Reach-inside}
use ad_graph_db.Algorithms.Dfs.{push_unvisited, dfs_loop, depth_first}
use ad_graph_db.Algorithms.Dfs.Stack.{contains-push, length-push, pending, pending_drop}

module _ (outgoing : NodeId → List Neighbor) (start : NodeId) where
  -- What was visited, and what waits on the stack.
  record Inv (visited stack : List NodeId) : Type 0 where
    distinct : IsDistinct visited
    source : (contains visited start || contains stack start) ≡ true
    sound : (v : NodeId) → contains visited v ≡ true → Reach outgoing start v
    waiting : (v : NodeId) → contains stack v ≡ true → Reach outgoing start v
    closed :
        (u v : NodeId)
        → contains visited u ≡ true
        → contains (targets (outgoing u)) v ≡ true
        → (contains visited v || contains stack v) ≡ true

  Inv-start : Inv [] (start ∷ [])
  Inv-start = record {
    distinct = tt;
    source = ground (arith, nat_beq_iff start start);
    sound = λ v h. absurd (ground (arith, h));
    waiting = λ v h. let e : v ≡ start = ground (arith, nat_beq_iff start v) in rw e here;
    closed = λ u v h k. absurd (ground (arith, h));
  }

  Inv-known :
      (c : NodeId) (visited stack : List NodeId)
      → contains visited c ≡ true
      → Inv visited (c ∷ stack)
      → Inv visited stack
  Inv-known c visited stack known h = record {
    distinct = h.distinct;
    source = ground (arith, h.source, nat_beq_iff c start);
    sound = h.sound;
    waiting = λ v k. h.waiting v (ground (arith, k));
    closed = λ u v hu hv. ground (arith, h.closed u v hu hv, nat_beq_iff c v);
  }

  module _ (c : NodeId) (visited stack : List NodeId) (new : contains visited c ≡ false)
      (h : Inv visited (c ∷ stack)) where
    abbrev more : List NodeId
    more = visited ++ c ∷ []

    reached : Reach outgoing start c
    reached = h.waiting c (ground (arith, nat_beq_iff c c))

    closed_new :
        (u v : NodeId)
        → contains more u ≡ true
        → contains (targets (outgoing u)) v ≡ true
        → (contains more v || contains (push_unvisited more (outgoing c) stack) v) ≡ true
    closed_new u v hu hv = elim (Bool-cases (c == u)) [
      | inl same ↦
          let q : u ≡ c = ground (arith, nat_beq_iff c u) in
          ground (arith, rw q at hv, contains-push more (outgoing c) stack v)
      | inr other ↦ ground (
        arith,
        contains-append visited (c ∷ []) u,
        contains-append visited (c ∷ []) v,
        contains-push more (outgoing c) stack v,
        h.closed u v,
      )
    ]

    waiting_new :
        (v : NodeId)
        → contains (push_unvisited more (outgoing c) stack) v ≡ true
        → Reach outgoing start v
    waiting_new v k = elim (Bool-cases (contains stack v)) [
      | inl old ↦ h.waiting v (ground (arith, old))
      | inr fresh ↦ step reached (ground (arith, contains-push more (outgoing c) stack v))
    ]

    sound_new : (v : NodeId) → contains more v ≡ true → Reach outgoing start v
    sound_new v k = elim (Bool-cases (contains visited v)) [
      | inl old ↦ h.sound v old
      | inr fresh ↦
          let q : v ≡ c = ground (arith, contains-append visited (c ∷ []) v, nat_beq_iff c v) in
          rw q reached
    ]

    Inv-new : Inv more (push_unvisited more (outgoing c) stack)
    Inv-new = record {
      distinct = IsDistinct-concat visited c new h.distinct;
      source = ground (
        arith,
        h.source,
        contains-append visited (c ∷ []) start,
        contains-push more (outgoing c) stack start,
      );
      sound = sound_new;
      waiting = waiting_new;
      closed = closed_new;
    }

  complete :
      (visited : List NodeId)
      → Inv visited []
      → {v : NodeId} → Reach outgoing start v
      → contains visited v ≡ true
  complete visited h here = ground (arith, h.source)
  complete visited h (step {u} {v} r e) = ground (arith, h.closed u v (complete visited h r) e)

  module _ (universe : List NodeId) (universal : IsUniverse outgoing start universe) where
    dfs_loop-Visits :
        (fuel : ℕ) (visited stack : List NodeId)
        → Inv visited stack
        → pending outgoing universe visited + length stack ≤ fuel
        → (result : List NodeId) × (dfs_loop outgoing fuel visited stack visited ≡ some result)
          × Visits outgoing start result
    unfolding dfs_loop
    dfs_loop-Visits zero visited [] h le = (
      visited,
      refl,
      record { once = h.distinct; reached = h.sound; complete_at = λ v r. complete visited h r },
    )
    dfs_loop-Visits zero visited (c ∷ stack) h le = absurd (omega arith)
    dfs_loop-Visits (suc fuel) visited [] h le = (
      visited,
      refl,
      record { once = h.distinct; reached = h.sound; complete_at = λ v r. complete visited h r },
    )
    dfs_loop-Visits (suc fuel) visited (c ∷ stack) h le = elim (Bool-cases (contains visited c)) [
      | inl known ↦
          rw (known, dfs_loop)
            (dfs_loop-Visits fuel visited stack (Inv-known c visited stack known h) (omega arith))
      | inr new ↦
          let more = visited ++ c ∷ [] in
          let inside =
            Reach-inside outgoing start universe universal
              (h.waiting c (ground (arith, nat_beq_iff c c))) in
          rw (new, dfs_loop)
            (dfs_loop-Visits fuel more (push_unvisited more (outgoing c) stack)
              (Inv-new c visited stack new h)
              (omega (
                arith,
                pending_drop outgoing universe visited c inside new,
                length-push more (outgoing c) stack,
              )))
    ]

module _ {E : Type 0} (p : GraphEnginePort E) (g : E) (start : NodeId) where
  -- From a node of the engine, with fuel for the start and for every outgoing edge of a finite set that
  -- holds the start and is closed under outgoing edges, the depth-first search returns, and its result
  -- lists every node that is reachable from the start, once, and no other.
  pub depth_first-Visits :
      (universe : List NodeId) (fuel : ℕ)
      → p.contains_node g start ≡ true
      → IsUniverse (p.neighbors_outgoing g) start universe
      → pending (p.neighbors_outgoing g) universe [] < fuel
      → (order : List NodeId) × (depth_first p fuel g start ≡ some order)
        × Visits (p.neighbors_outgoing g) start order
  unfolding depth_first
  depth_first-Visits universe fuel present universal enough =
      let outgoing = p.neighbors_outgoing g in
      rw present (
        dfs_loop-Visits outgoing start universe universal fuel [] (start ∷ [])
          (Inv-start outgoing start) (omega arith))
