-- ===== src/Storage/Replay/Commit.antt =====
-- A committed transaction, against the same records written outside any transaction.
use mathlib.Core.List.{append_assoc, append-nil}
use ad_graph_db.Base.{
  ℕ, ◌≡◌, refl, ap, sym, ◌∙◌, List, [], ◌∷◌, ◌++◌, none, some, any, nat_eq, ◌==◌, beq_refl,
  if◌then◌else◌, arith,
}
use ad_graph_db.Base.Map
use ad_graph_db.Base.Map.Extend
use ad_graph_db.Core.{NodeId, EdgeId, Node, Edge}
use ad_graph_db.Storage.Codec.{
  RecordData, upsert_node, upsert_edge, delete_node, delete_edge, begin_txn, commit_txn,
  rollback_txn,
}
use ad_graph_db.Storage.Replay.{
  TxnBuffer, Replayed, empty_buffer, remove_all, apply_now, buffer_record, apply_or_buffer,
  commit_buffer, apply_record,
}
use ad_graph_db.Storage.Replay.Records.{apply_all}
use ad_graph_db.Storage.Replay.Transactions.{
  AreData, buffer_all, apply_all-append, apply_all-buffers, node_inserts, node_deletes, DeletesLast,
}

n_ins-buffer_all :
    (ops : List RecordData) (b : TxnBuffer) → (buffer_all ops b).n_ins ≡ b.n_ins ++ node_inserts ops
unfolding buffer_record
n_ins-buffer_all [] b = sym (append-nil b.n_ins)
n_ins-buffer_all (upsert_node n ∷ ops) b =
    n_ins-buffer_all ops (buffer_record (upsert_node n) b)
    ∙ append_assoc b.n_ins ((n.id, n) ∷ []) (node_inserts ops)
n_ins-buffer_all (r ∷ ops) b = n_ins-buffer_all ops (buffer_record r b)

n_del-buffer_all :
    (ops : List RecordData) (b : TxnBuffer) → (buffer_all ops b).n_del ≡ b.n_del ++ node_deletes ops
unfolding buffer_record
n_del-buffer_all [] b = sym (append-nil b.n_del)
n_del-buffer_all (delete_node id ∷ ops) b =
    n_del-buffer_all ops (buffer_record (delete_node id) b)
    ∙ append_assoc b.n_del (id ∷ []) (node_deletes ops)
n_del-buffer_all (r ∷ ops) b = n_del-buffer_all ops (buffer_record r b)

txn_id-buffer_all : (ops : List RecordData) (b : TxnBuffer) → (buffer_all ops b).txn_id ≡ b.txn_id
unfolding buffer_record
txn_id-buffer_all [] b = refl
txn_id-buffer_all (upsert_node n ∷ ops) b = txn_id-buffer_all ops (buffer_record (upsert_node n) b)
txn_id-buffer_all (r ∷ ops) b = txn_id-buffer_all ops (buffer_record r b)

abbrev pub committed : ℕ → List RecordData → Replayed → Replayed
committed id ops s = apply_all (begin_txn id ∷ (ops ++ commit_txn id ∷ [])) s

-- A committed transaction leaves the nodes as if all its insertions had come first and then all its
-- deletions, whatever their order in the log was.
pub nodes-committed :
    (id : ℕ) (ops : List RecordData) (s : Replayed)
    → AreData ops
    → (committed id ops s).nodes
      ≡ remove_all (node_deletes ops) (Map.Extend.extend (node_inserts ops) s.nodes)
unfolding apply_record commit_buffer
nodes-committed id ops s h =
    let b = empty_buffer id in
    ap (λ t. t.nodes)
      (apply_all-append ops (commit_txn id ∷ []) (record s { txn_buffer = some b })
        ∙ ap (apply_record (commit_txn id)) (apply_all-buffers ops b s h))
    ∙ rw (txn_id-buffer_all ops b, n_ins-buffer_all ops b, n_del-buffer_all ops b, beq_refl id)

get-remove_all :
    (k : ℕ) (ks : List ℕ) (m : List (NodeId × Node))
    → Map.get k (remove_all ks m) ≡ (if any (λ x. x == k) ks then none else Map.get k m)
get-remove_all k [] m = refl
get-remove_all k (j ∷ ks) m =
    ground (arith, get-remove_all k ks (Map.remove j m), Map.get-remove j k m)

-- The state with no transaction open.
abbrev pub idle : List (NodeId × Node) → List (EdgeId × Edge) → Replayed
idle nodes edges = record { nodes = nodes; edges = edges; txn_buffer = none }

-- A deletion moves behind the inserts of other keys.
swap :
    (k id : NodeId) (ds : List NodeId) (ins m : List (NodeId × Node))
    → Map.get id ins ≡ none
    → Map.get k (remove_all ds (Map.Extend.extend ins (Map.remove id m)))
      ≡ Map.get k (remove_all ds (Map.remove id (Map.Extend.extend ins m)))
swap k id ds ins m absent = ground (
  arith,
  get-remove_all k ds (Map.Extend.extend ins (Map.remove id m)),
  get-remove_all k ds (Map.remove id (Map.Extend.extend ins m)),
  Map.get-remove id k (Map.Extend.extend ins m),
  Map.get-remove id k m,
  Map.Extend.get-extend_absent k ins (Map.remove id m),
  Map.Extend.get-extend_congr k ins (Map.remove id m) m,
)

get-sequential :
    (k : NodeId) (ops : List RecordData) (m : List (NodeId × Node)) (es : List (EdgeId × Edge))
    → AreData ops
    → DeletesLast ops
    → Map.get k (apply_all ops (idle m es)).nodes
      ≡ Map.get k (remove_all (node_deletes ops) (Map.Extend.extend (node_inserts ops) m))
unfolding apply_record apply_or_buffer apply_now
get-sequential k [] m es h d = refl
get-sequential k (upsert_node n ∷ ops) m es (_, h) d =
    get-sequential k ops (Map.insert n.id n m) es h d
get-sequential k (delete_node id ∷ ops) m es (_, h) (last, d) =
    get-sequential k ops (Map.remove id m) es h d
    ∙ swap k id (node_deletes ops) (node_inserts ops) m last
get-sequential k (upsert_edge e ∷ ops) m es (_, h) d =
    get-sequential k ops m (Map.insert e.id e es) h d
get-sequential k (delete_edge id ∷ ops) m es (_, h) d =
    get-sequential k ops m (Map.remove id es) h d
get-sequential k (begin_txn id ∷ ops) m es h d = absurd h.0
get-sequential k (commit_txn id ∷ ops) m es h d = absurd h.0
get-sequential k (rollback_txn id ∷ ops) m es h d = absurd h.0

-- If no node is inserted after its deletion, a committed transaction leaves for every node id what the
-- same records would leave outside a transaction, from a state with no transaction open.
pub get-committed :
    (id : ℕ) (k : NodeId) (ops : List RecordData) (m : List (NodeId × Node))
    (es : List (EdgeId × Edge))
    → AreData ops
    → DeletesLast ops
    → Map.get k (committed id ops (idle m es)).nodes ≡ Map.get k (apply_all ops (idle m es)).nodes
get-committed id k ops m es h d =
    ap (Map.get k) (nodes-committed id ops (idle m es) h) ∙ sym (get-sequential k ops m es h d)

-- A transaction that deletes a node id and then inserts a node under it loses the node on replay,
-- although the same two records outside a transaction keep it.
pub committed-reinsert :
    (id : ℕ) (n : Node) (m : List (NodeId × Node)) (es : List (EdgeId × Edge))
    → (Map.get n.id (committed id (delete_node n.id ∷ upsert_node n ∷ []) (idle m es)).nodes ≡ none)
      × (Map.get n.id (apply_all (delete_node n.id ∷ upsert_node n ∷ []) (idle m es)).nodes
          ≡ some n)
unfolding apply_record apply_or_buffer apply_now
committed-reinsert id n m es = (
  ap (Map.get n.id)
        (nodes-committed id (delete_node n.id ∷ upsert_node n ∷ []) (idle m es) (tt, (tt, tt)))
      ∙ ground (arith, Map.get-remove n.id n.id (Map.insert n.id n m)),
  ground (arith, Map.get-insert n.id n.id n (Map.remove n.id m)),
)
