-- ===== src/Storage/Port.antt =====
-- The port (src/ports/storage.rs), and what the database relies on: a store gives back what was
-- saved. A method with `&mut self` leaves a new store, also where it fails.
use ad_graph_db.Base.{ℕ, ◌≡◌, ◌≢◌, List, Option, some, none}
use ad_graph_db.Core.{NodeId, EdgeId, Node, Edge, GraphError, Result, ok, err, IsU64}

pub record StoragePort (S : Type 0) : Type 0 where
  pub save_node : Node → S → Result {0} Unit × S
  pub load_node : NodeId → S → Result (Option Node)
  pub delete_node : NodeId → S → Result {0} Unit × S
  pub save_edge : Edge → S → Result {0} Unit × S
  pub load_edge : EdgeId → S → Result (Option Edge)
  pub delete_edge : EdgeId → S → Result {0} Unit × S
  pub load_all_nodes : S → Result (List Node)
  pub load_all_edges : S → Result (List Edge)
  pub compact : S → Result {0} Unit × S
  pub wal_size_bytes : S → ℕ
  pub begin_wal_transaction : ℕ → S → Result {0} Unit × S
  pub commit_wal_transaction : ℕ → S → Result {0} Unit × S
  pub rollback_wal_transaction : ℕ → S → Result {0} Unit × S

-- The contract on nodes. It holds in the states that `IsGood` names, such as a log with no open transaction, and
-- for the nodes that `IsStorable` names, those within the bounds of their types: there a node is found under its
-- id, a write that succeeds is what the next load returns, and it changes no other node; a write that fails
-- changes nothing; compaction changes no node; and each method leaves a good state.
pub record StorageLaws {S : Type 0} (p : StoragePort S) : Type 1 where
  pub IsGood : S → Type 0
  pub IsStorable : Node → Type 0
  pub keyed :
      (id : NodeId) (n : Node) (s : S) → IsGood s → p.load_node id s ≡ ok (some n) → n.id ≡ id
  pub save_good : (n : Node) (s : S) → IsGood s → IsStorable n → IsGood (p.save_node n s).1
  pub saved :
      (n : Node) (s : S)
      → IsGood s
      → IsStorable n
      → (p.save_node n s).0 ≡ ok tt
      → p.load_node n.id (p.save_node n s).1 ≡ ok (some n)
  pub save_other :
      (n : Node) (j : NodeId) (s : S)
      → IsGood s
      → IsStorable n
      → n.id ≢ j
      → p.load_node j (p.save_node n s).1 ≡ p.load_node j s
  pub save_failed :
      (n : Node) (e : GraphError) (j : NodeId) (s : S)
      → IsGood s
      → (p.save_node n s).0 ≡ err e
      → p.load_node j (p.save_node n s).1 ≡ p.load_node j s
  pub delete_good : (id : NodeId) (s : S) → IsGood s → IsU64 id → IsGood (p.delete_node id s).1
  pub deleted :
      (id : NodeId) (s : S)
      → IsGood s
      → IsU64 id
      → (p.delete_node id s).0 ≡ ok tt
      → p.load_node id (p.delete_node id s).1 ≡ ok none
  pub delete_other :
      (id j : NodeId) (s : S)
      → IsGood s
      → IsU64 id
      → id ≢ j
      → p.load_node j (p.delete_node id s).1 ≡ p.load_node j s
  pub delete_failed :
      (id : NodeId) (e : GraphError) (j : NodeId) (s : S)
      → IsGood s
      → (p.delete_node id s).0 ≡ err e
      → p.load_node j (p.delete_node id s).1 ≡ p.load_node j s
  pub delete_edge_good : (id : EdgeId) (s : S) → IsGood s → IsU64 id → IsGood (p.delete_edge id s).1
  pub delete_edge_keeps :
      (id : EdgeId) (j : NodeId) (s : S)
      → IsGood s
      → IsU64 id
      → p.load_node j (p.delete_edge id s).1 ≡ p.load_node j s
  pub compact_good : (s : S) → IsGood s → IsGood (p.compact s).1
  pub compact_keeps :
      (j : NodeId) (s : S) → IsGood s → p.load_node j (p.compact s).1 ≡ p.load_node j s
