-- ===== src/Transaction/Staging.antt =====
-- The ids that a transaction hands out.
use mathlib.Core.List.{foldl}
use ad_graph_db.Base.{◌+◌, ◌^◌, ◌≤◌, ◌<◌, ◌≢◌, List, [], ◌∷◌, Memᴰ, Memᴰ-cons, arith, inl, inr}
use mathlib.Core.List.Memᴰ
use ad_graph_db.Core.{Node}
use ad_graph_db.Core.IdGenerator.{IdGenerator, next_node_id, seed_from_node, seed_from_edge}
use ad_graph_db.Transaction.{
  StagedOp, insert_node, insert_edge, delete_node, delete_edge, Transaction, seed_from_op,
  seed_generator_into,
}

-- The node ids of the staged insertions are below the last `u64`, so that no counter wraps.
abbrev pub InRange : List StagedOp → Type 0
InRange [] = Unit
InRange (insert_node n ∷ ops) = (n.id + 1 < 2 ^ 64) × InRange ops
InRange (_ ∷ ops) = InRange ops

abbrev seed_ops : List StagedOp → IdGenerator → IdGenerator
seed_ops ops g = foldl (λ h op. seed_from_op op h) g ops

seed_ops_mono :
    (ops : List StagedOp) (g : IdGenerator) → InRange ops → g.next_node ≤ (seed_ops ops g).next_node
unfolding seed_from_op seed_from_node seed_from_edge
seed_ops_mono [] g h = omega arith
seed_ops_mono (insert_node n ∷ ops) g (hn, h) =
    ground (arith, seed_ops_mono ops (seed_from_node g n.id) h)
seed_ops_mono (insert_edge e ∷ ops) g h =
    ground (arith, seed_ops_mono ops (seed_from_edge g e.id) h)
seed_ops_mono (delete_node id ∷ ops) g h = seed_ops_mono ops g h
seed_ops_mono (delete_edge id ∷ ops) g h = seed_ops_mono ops g h

seed_ops-above :
    (ops : List StagedOp) (g : IdGenerator) (n : Node)
    → InRange ops
    → Memᴰ (insert_node n) ops
    → n.id < (seed_ops ops g).next_node
unfolding seed_from_op seed_from_node seed_from_edge
seed_ops-above [] g n h m = absurd (Memᴰ.not-nil m)
seed_ops-above (insert_node k ∷ ops) g n (hk, h) m =
    elim ((Memᴰ-cons (insert_node n) (insert_node k) ops).0 m) [
      | inl e ↦ ground (arith, e, seed_ops_mono ops (seed_from_node g k.id) h)
      | inr later ↦ seed_ops-above ops (seed_from_node g k.id) n h later
    ]
seed_ops-above (insert_edge e ∷ ops) g n h m =
    elim ((Memᴰ-cons (insert_node n) (insert_edge e) ops).0 m) [
      | inl eq ↦ absurd (cc)
      | inr later ↦ seed_ops-above ops (seed_from_edge g e.id) n h later
    ]
seed_ops-above (delete_node id ∷ ops) g n h m =
    elim ((Memᴰ-cons (insert_node n) (delete_node id) ops).0 m) [
      | inl eq ↦ absurd (cc)
      | inr later ↦ seed_ops-above ops g n h later
    ]
seed_ops-above (delete_edge id ∷ ops) g n h m =
    elim ((Memᴰ-cons (insert_node n) (delete_edge id) ops).0 m) [
      | inl eq ↦ absurd (cc)
      | inr later ↦ seed_ops-above ops g n h later
    ]

-- After the generator is seeded from a transaction, as a rollback does, the next node id is none of the
-- transaction's staged insertions, if each of their ids is below the largest u64.
pub seed_generator_into-fresh :
    (t : Transaction) (g : IdGenerator) (n : Node)
    → InRange t.operations
    → Memᴰ (insert_node n) t.operations
    → (next_node_id (seed_generator_into t g)).0 ≢ n.id
unfolding next_node_id seed_generator_into
seed_generator_into-fresh t g n h m =
    λ e. absurd (omega (arith, seed_ops-above t.operations g n h m))
