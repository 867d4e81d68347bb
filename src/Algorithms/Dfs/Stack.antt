-- ===== src/Algorithms/Dfs/Stack.antt =====
-- What one round does to the stack, and the edges that are still to be followed.
use ad_graph_db.Base.{
  ℕ, ◌+◌, ◌≤◌, ◌≡◌, List, [], ◌∷◌, ◌++◌, true, false, not, ◌||◌, ◌&&◌, nat_eq, nat_beq_iff, ◌==◌,
  length, if◌then◌else◌, arith, inl, inr, Bool-cases,
}
use ad_graph_db.Core.{NodeId}
use ad_graph_db.Engine.Port.{Neighbor}
use ad_graph_db.Algorithms.Graph.{contains, targets, contains-append}
use ad_graph_db.Algorithms.Dfs.{push_unvisited}

pub contains-push :
    (visited : List NodeId) (ns : List Neighbor) (stack : List NodeId) (v : NodeId)
    → contains (push_unvisited visited ns stack) v
      ≡ (contains stack v || (contains (targets ns) v && not (contains visited v)))
unfolding push_unvisited
contains-push visited [] stack v = ground arith
contains-push visited (n ∷ ns) stack v = elim (Bool-cases (contains visited n.node_id)) [
  | inl known ↦ rw known (ground (arith, contains-push visited ns stack v, nat_beq_iff n.node_id v))
  | inr new ↦
      rw new
        (ground (arith, contains-push visited ns (n.node_id ∷ stack) v, nat_beq_iff n.node_id v))
]

pub length-push :
    (visited : List NodeId) (ns : List Neighbor) (stack : List NodeId)
    → length (push_unvisited visited ns stack) ≤ length ns + length stack
unfolding push_unvisited
length-push visited [] stack = omega arith
length-push visited (n ∷ ns) stack =
    ground (arith, length-push visited ns stack, length-push visited ns (n.node_id ∷ stack))

module _ (outgoing : NodeId → List Neighbor) where
  -- The outgoing edges of the nodes that are not visited.
  abbrev pub pending : List NodeId → List NodeId → ℕ
  pending [] visited = 0
  pending (u ∷ us) visited =
      (if contains visited u then 0 else length (outgoing u)) + pending us visited

  pending_mono :
      (us visited : List NodeId) (c : NodeId) → pending us (visited ++ c ∷ []) ≤ pending us visited
  pending_mono [] visited c = omega arith
  pending_mono (u ∷ us) visited c =
      ground (arith, contains-append visited (c ∷ []) u, pending_mono us visited c)

  pub pending_drop :
      (us visited : List NodeId) (c : NodeId)
      → contains us c ≡ true
      → contains visited c ≡ false
      → pending us (visited ++ c ∷ []) + length (outgoing c) ≤ pending us visited
  pending_drop [] visited c h k = absurd (ground (arith, h))
  pending_drop (u ∷ us) visited c h k = elim (Bool-cases (u == c)) [
    | inl same ↦
        let q : u ≡ c = ground (arith, nat_beq_iff u c) in
        let now : contains (visited ++ c ∷ []) u ≡ true =
          ground (arith, contains-append visited (c ∷ []) u, nat_beq_iff c u) in
        let before : contains visited u ≡ false = rw q k in
        rw (now, before, q) (omega (arith, pending_mono us visited c))
    | inr other ↦ ground (
      arith,
      contains-append visited (c ∷ []) u,
      nat_beq_iff u c,
      nat_beq_iff c u,
      pending_drop us visited c,
    )
  ]
