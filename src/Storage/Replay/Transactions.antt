-- ===== src/Storage/Replay/Transactions.antt =====
-- What a transaction's markers do on replay.
use mathlib.Core.List.{foldl}
use ad_graph_db.Base.{ℕ, ◌≡◌, refl, ap, ◌∙◌, List, [], ◌∷◌, ◌++◌, none, some, nat_eq}
use ad_graph_db.Base.Map
use ad_graph_db.Core.{NodeId, Node}
use ad_graph_db.Storage.Codec.{
  RecordData, upsert_node, upsert_edge, delete_node, delete_edge, begin_txn, commit_txn,
  rollback_txn,
}
use ad_graph_db.Storage.Replay.{
  TxnBuffer, Replayed, empty_buffer, buffer_record, apply_or_buffer, apply_record,
}
use ad_graph_db.Storage.Replay.Records.{apply_all}

-- A record that is no marker.
abbrev pub IsData : RecordData → Type 0
IsData (begin_txn id) = ⊥
IsData (commit_txn id) = ⊥
IsData (rollback_txn id) = ⊥
IsData (upsert_node n) = Unit
IsData (upsert_edge e) = Unit
IsData (delete_node id) = Unit
IsData (delete_edge id) = Unit

abbrev pub AreData : List RecordData → Type 0
AreData [] = Unit
AreData (r ∷ ops) = IsData r × AreData ops

-- The buffer after the records of a transaction.
abbrev pub buffer_all : List RecordData → TxnBuffer → TxnBuffer
buffer_all ops b = foldl (λ c r. buffer_record r c) b ops

pub apply_all-append :
    (xs ys : List RecordData) (s : Replayed)
    → apply_all (xs ++ ys) s ≡ apply_all ys (apply_all xs s)
apply_all-append [] ys s = refl
apply_all-append (x ∷ xs) ys s = apply_all-append xs ys (apply_record x s)

apply_record-buffers :
    (r : RecordData) (b : TxnBuffer) (s : Replayed)
    → IsData r
    → apply_record r (record s { txn_buffer = some b })
      ≡ record s { txn_buffer = some (buffer_record r b) }
unfolding apply_record apply_or_buffer
apply_record-buffers (upsert_node n) b s h = refl
apply_record-buffers (upsert_edge e) b s h = refl
apply_record-buffers (delete_node id) b s h = refl
apply_record-buffers (delete_edge id) b s h = refl
apply_record-buffers (begin_txn id) b s h = absurd h
apply_record-buffers (commit_txn id) b s h = absurd h
apply_record-buffers (rollback_txn id) b s h = absurd h

-- Inside a transaction the records only reach the buffer.
pub apply_all-buffers :
    (ops : List RecordData) (b : TxnBuffer) (s : Replayed)
    → AreData ops
    → apply_all ops (record s { txn_buffer = some b })
      ≡ record s { txn_buffer = some (buffer_all ops b) }
apply_all-buffers [] b s h = refl
apply_all-buffers (r ∷ ops) b s (hr, h) =
    rw (apply_record-buffers r b s hr) (apply_all-buffers ops (buffer_record r b) s h)

-- A transaction that was begun and neither committed nor rolled back leaves both maps as they were,
-- whatever it wrote: this is what replay makes of a crash between the markers.
pub apply_all-incomplete :
    (id : ℕ) (ops : List RecordData) (s : Replayed)
    → AreData ops
    → ((apply_all (begin_txn id ∷ ops) s).nodes ≡ s.nodes)
      × ((apply_all (begin_txn id ∷ ops) s).edges ≡ s.edges)
unfolding apply_record
apply_all-incomplete id ops s h =
    let e = apply_all-buffers ops (empty_buffer id) s h in
    (ap (λ t. t.nodes) e, ap (λ t. t.edges) e)

-- A transaction that was begun and rolled back, whatever it wrote, leaves both maps as they were and no
-- transaction open.
pub apply_all-rolled_back :
    (id other : ℕ) (ops : List RecordData) (s : Replayed)
    → AreData ops
    → apply_all (begin_txn id ∷ (ops ++ rollback_txn other ∷ [])) s ≡ record s { txn_buffer = none }
unfolding apply_record
apply_all-rolled_back id other ops s h =
    apply_all-append ops (rollback_txn other ∷ [])
      (record s { txn_buffer = some (empty_buffer id) })
    ∙ ap (apply_record (rollback_txn other)) (apply_all-buffers ops (empty_buffer id) s h)

-- The inserts and the deletes of node records, in order.
abbrev pub node_inserts : List RecordData → List (NodeId × Node)
node_inserts [] = []
node_inserts (upsert_node n ∷ ops) = (n.id, n) ∷ node_inserts ops
node_inserts (_ ∷ ops) = node_inserts ops

abbrev pub node_deletes : List RecordData → List NodeId
node_deletes [] = []
node_deletes (delete_node id ∷ ops) = id ∷ node_deletes ops
node_deletes (_ ∷ ops) = node_deletes ops

-- No node is inserted after its deletion.
abbrev pub DeletesLast : List RecordData → Type 0
DeletesLast [] = Unit
DeletesLast (delete_node id ∷ ops) = (Map.get id (node_inserts ops) ≡ none) × DeletesLast ops
DeletesLast (_ ∷ ops) = DeletesLast ops
