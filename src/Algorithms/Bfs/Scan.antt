-- ===== src/Algorithms/Bfs/Scan.antt =====
-- One round of the search: the neighbors that it discovers.
use mathlib.Core.List.{append-nil, append_assoc}
use ad_graph_db.Base.{
  ◌+◌, ◌≤◌, ◌≡◌, ◌∙◌, List, [], ◌∷◌, ◌++◌, true, false, ◌||◌, nat_eq, length, arith, Bool-cases,
  inl, inr,
}
use ad_graph_db.Core.{NodeId}
use ad_graph_db.Engine.Port.{Neighbor}
use ad_graph_db.Algorithms.Graph.{
  contains, IsDistinct, targets, contains-append, IsDistinct-concat, unseen, unseen-lt,
}
use ad_graph_db.Algorithms.Bfs.{scan}

-- The targets that are not visited yet, each once.
unfoldable pub fresh : List NodeId → List Neighbor → List NodeId
fresh visited [] = []
fresh visited (n ∷ ns) = elim (contains visited n.node_id) [
  | true ↦ fresh visited ns
  | false ↦ n.node_id ∷ fresh (visited ++ n.node_id ∷ []) ns
]

pub scan-eq :
    (ns : List Neighbor) (visited queue : List NodeId)
    → scan ns (visited, queue) ≡ (visited ++ fresh visited ns, queue ++ fresh visited ns)
unfolding scan fresh
scan-eq [] visited queue = rw (append-nil visited, append-nil queue)
scan-eq (n ∷ ns) visited queue = elim (Bool-cases (contains visited n.node_id)) [
  | inl old ↦ rw (old, fresh) (scan-eq ns visited queue)
  | inr new ↦
      let one = n.node_id ∷ [] in
      let rest = fresh (visited ++ one) ns in
      rw (new, fresh)
        (scan-eq ns (visited ++ one) (queue ++ one)
          ∙ rw (append_assoc visited one rest, append_assoc queue one rest))
]

pub contains-fresh :
    (ns : List Neighbor) (visited : List NodeId) (v : NodeId)
    → contains (visited ++ fresh visited ns) v ≡ (contains visited v || contains (targets ns) v)
unfolding fresh
contains-fresh [] visited v = rw (append-nil visited) (ground arith)
contains-fresh (n ∷ ns) visited v = elim (Bool-cases (contains visited n.node_id)) [
  | inl old ↦ rw (old, fresh) (ground (arith, contains-fresh ns visited v))
  | inr new ↦
      let one = n.node_id ∷ [] in
      rw (new, fresh, ← append_assoc visited one (fresh (visited ++ one) ns))
        (ground (arith, contains-fresh ns (visited ++ one) v, contains-append visited one v))
]

pub IsDistinct-fresh :
    (ns : List Neighbor) (visited : List NodeId)
    → IsDistinct visited
    → IsDistinct (visited ++ fresh visited ns)
unfolding fresh
IsDistinct-fresh [] visited d = rw (append-nil visited) d
IsDistinct-fresh (n ∷ ns) visited d = elim (Bool-cases (contains visited n.node_id)) [
  | inl old ↦ rw (old, fresh) (IsDistinct-fresh ns visited d)
  | inr new ↦
      let one = n.node_id ∷ [] in
      let all = append_assoc visited one (fresh (visited ++ one) ns) in
      rw (new, fresh)
        (rw all at
          (IsDistinct-fresh ns (visited ++ one) (IsDistinct-concat visited n.node_id new d)))
]

-- Discovering takes each node out of the unseen ones.
pub unseen-fresh :
    (universe : List NodeId) (ns : List Neighbor) (visited : List NodeId)
    → ((v : NodeId) → contains (targets ns) v ≡ true → contains universe v ≡ true)
    → unseen universe (visited ++ fresh visited ns) + length (fresh visited ns)
      ≤ unseen universe visited
unfolding fresh
unseen-fresh universe [] visited inside = rw (append-nil visited) (omega arith)
unseen-fresh universe (n ∷ ns) visited inside = elim (Bool-cases (contains visited n.node_id)) [
  | inl old ↦ rw (old, fresh) (unseen-fresh universe ns visited later)
  | inr new ↦
      let one = n.node_id ∷ [] in
      let lt = unseen-lt universe visited n.node_id (inside n.node_id (ground arith)) new in
      rw (new, fresh, ← append_assoc visited one (fresh (visited ++ one) ns))
        (omega (arith, unseen-fresh universe ns (visited ++ one) later))
]
  where
    later : (v : NodeId) → contains (targets ns) v ≡ true → contains universe v ≡ true
    later v h = inside v (ground arith)
