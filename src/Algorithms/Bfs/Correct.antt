-- ===== src/Algorithms/Bfs/Correct.antt =====
-- The search returns, visits each reachable node once, and visits nothing else.
use mathlib.Core.List.{append-nil, append_assoc}
use ad_graph_db.Base.{
  ℕ, zero, suc, ◌+◌, ◌≤◌, ◌<◌, ◌≡◌, refl, ap, sym, ◌∙◌, List, [], ◌∷◌, ◌++◌, true, some, nat_eq,
  nat_beq_iff, length, length-append, arith, inl, inr, Bool-cases,
}
use ad_graph_db.Core.{NodeId}
use ad_graph_db.Engine.Port.{Neighbor, GraphEnginePort}
use ad_graph_db.Algorithms.Graph.{
  contains, IsDistinct, targets, Reach, here, step, contains-append, unseen,
}
use ad_graph_db.Algorithms.Bfs.{loop, traverse}
use ad_graph_db.Algorithms.Bfs.Scan.{fresh, scan-eq, contains-fresh, IsDistinct-fresh, unseen-fresh}

module _ (outgoing : NodeId → List Neighbor) (start : NodeId) where
  -- The queue is what was visited and not yet put into the order.
  record Inv (visited queue order : List NodeId) : Type 0 where
    split : visited ≡ order ++ queue
    distinct : IsDistinct visited
    source : contains visited start ≡ true
    sound : (v : NodeId) → contains visited v ≡ true → Reach outgoing start v
    closed :
        (u v : NodeId)
        → contains order u ≡ true
        → contains (targets (outgoing u)) v ≡ true
        → contains visited v ≡ true

  Inv-start : Inv (start ∷ []) (start ∷ []) []
  Inv-start = record {
    split = refl;
    distinct = (refl, tt);
    source = ground arith;
    sound = λ v h. let e : v ≡ start = ground (arith, nat_beq_iff start v) in rw e here;
    closed = λ u v h k. ground arith;
  }

  Inv-round :
      (current : NodeId) (visited queue order : List NodeId)
      → Inv visited (current ∷ queue) order
      → Inv
          (visited ++ fresh visited (outgoing current))
          (queue ++ fresh visited (outgoing current))
          (order ++ current ∷ [])
  Inv-round current visited queue order h =
      let ns = outgoing current in
      let new = fresh visited ns in
      let known : contains visited current ≡ true =
        rw h.split (ground (arith, contains-append order (current ∷ queue) current)) in
      record {
        split =
            ap (λ l. l ++ new) h.split
            ∙ append_assoc order (current ∷ queue) new
            ∙ sym (append_assoc order (current ∷ []) (queue ++ new));
        distinct = IsDistinct-fresh ns visited h.distinct;
        source = ground (arith, contains-fresh ns visited start, h.source);
        sound = λ v m. elim (Bool-cases (contains visited v)) [
          | inl old ↦ h.sound v old
          | inr late ↦ step (h.sound current known) (ground (arith, contains-fresh ns visited v))
        ];
        closed = λ u v m e. ground (
          arith,
          contains-fresh ns visited v,
          contains-append order (current ∷ []) u,
          h.closed u v,
          nat_beq_iff current u,
        );
      }

  -- At an empty queue the order is the set of reachable nodes.
  complete :
      (visited order : List NodeId)
      → Inv visited [] order
      → {v : NodeId} → Reach outgoing start v
      → contains order v ≡ true
  complete visited order h here = rw (h.split ∙ append-nil order) at h.source
  complete visited order h (step {u} {v} r e) =
      rw (h.split ∙ append-nil order) at (h.closed u v (complete visited order h r) e)

  -- A finite set of nodes that holds the start and is closed under the edges.
  pub record IsUniverse (universe : List NodeId) : Type 0 where
    pub holds_start : contains universe start ≡ true
    pub is_closed :
        (u v : NodeId)
        → contains universe u ≡ true
        → contains (targets (outgoing u)) v ≡ true
        → contains universe v ≡ true

  pub Reach-inside :
      (universe : List NodeId)
      → IsUniverse universe
      → {v : NodeId} → Reach outgoing start v
      → contains universe v ≡ true
  Reach-inside universe c here = c.holds_start
  Reach-inside universe c (step {u} {v} r e) = c.is_closed u v (Reach-inside universe c r) e

  -- The order lists each reachable node once, and no other.
  pub record Visits (order : List NodeId) : Type 0 where
    pub once : IsDistinct order
    pub reached : (v : NodeId) → contains order v ≡ true → Reach outgoing start v
    pub complete_at : (v : NodeId) → Reach outgoing start v → contains order v ≡ true

  Inv-Visits : (visited order : List NodeId) → Inv visited [] order → Visits order
  Inv-Visits visited order h =
      let same : visited ≡ order = h.split ∙ append-nil order in
      record {
        once = rw same at h.distinct;
        reached = λ v m. h.sound v (rw same m);
        complete_at = λ v r. complete visited order h r;
      }

  module _ (universe : List NodeId) (c : IsUniverse universe) where
    loop-Visits :
        (fuel : ℕ) (visited queue order : List NodeId)
        → Inv visited queue order
        → unseen universe visited + length queue ≤ fuel
        → (result : List NodeId) × (loop outgoing fuel visited queue order ≡ some result)
          × Visits result
    unfolding loop
    loop-Visits zero visited [] order h le = (order, refl, Inv-Visits visited order h)
    loop-Visits zero visited (current ∷ queue) order h le = absurd (omega arith)
    loop-Visits (suc fuel) visited [] order h le = (order, refl, Inv-Visits visited order h)
    loop-Visits (suc fuel) visited (current ∷ queue) order h le =
        let ns = outgoing current in
        let new = fresh visited ns in
        let known : contains visited current ≡ true =
          rw h.split (ground (arith, contains-append order (current ∷ queue) current)) in
        let inside : (v : NodeId) → contains (targets ns) v ≡ true → contains universe v ≡ true =
          λ v. c.is_closed current v (Reach-inside universe c (h.sound current known)) in
        rw (scan-eq ns visited queue) (
          loop-Visits fuel (visited ++ new) (queue ++ new) (order ++ current ∷ [])
            (Inv-round current visited queue order h)
            (omega (arith, unseen-fresh universe ns visited inside, length-append queue new)))

module _ {E : Type 0} (p : GraphEnginePort E) (g : E) (start : NodeId) where
  unseen-le-length : (universe visited : List NodeId) → unseen universe visited ≤ length universe
  unseen-le-length [] visited = omega arith
  unseen-le-length (u ∷ universe) visited = ground (arith, unseen-le-length universe visited)

  -- From a node of the engine, with one round of fuel more than a finite set that holds the start and is
  -- closed under outgoing edges, the search returns, and its result lists every node that is reachable
  -- from the start, once, and no other.
  pub traverse-Visits :
      (universe : List NodeId) (fuel : ℕ)
      → p.contains_node g start ≡ true
      → IsUniverse (p.neighbors_outgoing g) start universe
      → length universe < fuel
      → (order : List NodeId) × (traverse p fuel g start ≡ some order)
        × Visits (p.neighbors_outgoing g) start order
  unfolding traverse
  traverse-Visits universe fuel present c enough =
      let outgoing = p.neighbors_outgoing g in
      rw present (
        loop-Visits outgoing start universe c fuel (start ∷ []) (start ∷ []) []
          (Inv-start outgoing start) (omega (arith, unseen-le-length universe (start ∷ []))))
