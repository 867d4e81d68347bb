-- ===== src/Storage/BinaryFile/Contract.antt =====
-- The adapter meets the contract of the port (src/ports/storage.rs): its good states are the files that hold a
-- log of whole records in which no transaction is open.
use ad_graph_db.Base.{
  ◌≡◌, ◌≢◌, refl, ap, sym, ◌∙◌, List, [], ◌∷◌, ◌++◌, Bool, none, some, nat_eq, nat_beq_iff, arith,
}
use ad_graph_db.Base.Map
use ad_graph_db.Base.Map.Entries.{AllEntries-get}
use ad_graph_db.Core.{NodeId, EdgeId, Text, Node, ok, IsU64}
use ad_graph_db.Storage.Codec.{RecordData, upsert_node, delete_node, delete_edge}
use ad_graph_db.Storage.Codec.Records.{IsRecord, IsNode}
use ad_graph_db.Storage.Port.{StorageLaws}
use ad_graph_db.Storage.Replay.{Replayed, no_records, apply_now, apply_or_buffer, apply_record}
use ad_graph_db.Storage.Replay.Records.{apply_all}
use ad_graph_db.Storage.Replay.Tidy.{NodeEntry}
use ad_graph_db.Storage.Replay.Transactions.{apply_all-append}
use ad_graph_db.Storage.BinaryFile.{
  File, open_file, save_node, delete_node_in, delete_edge_in, map_ok, load_node, port,
}
use ad_graph_db.Storage.BinaryFile.Log.{
  Holds, write_record, open_file-Holds, write_record-Holds, replay-Holds, load_node-save_node,
  load_node-delete_node,
}
use ad_graph_db.Storage.BinaryFile.Compaction.{
  live_records, apply_all-live_records, tidy, compact-Holds, replay-compact,
}

-- A record that neither opens nor closes a transaction.
abbrev StaysClosed : RecordData → Type 0
StaysClosed r = (s : Replayed) → s.txn_buffer ≡ none → (apply_record r s).txn_buffer ≡ none

upsert_node-StaysClosed : (n : Node) → StaysClosed (upsert_node n)
unfolding apply_record apply_or_buffer apply_now
upsert_node-StaysClosed n s free = ground (arith, free)

delete_node-StaysClosed : (id : NodeId) → StaysClosed (delete_node id)
unfolding apply_record apply_or_buffer apply_now
delete_node-StaysClosed id s free = ground (arith, free)

delete_edge-StaysClosed : (id : EdgeId) → StaysClosed (delete_edge id)
unfolding apply_record apply_or_buffer apply_now
delete_edge-StaysClosed id s free = ground (arith, free)

-- The deletion of an edge leaves the nodes.
delete_edge-nodes :
    (id : EdgeId) (s : Replayed)
    → s.txn_buffer ≡ none
    → (apply_record (delete_edge id) s).nodes ≡ s.nodes
unfolding apply_record apply_or_buffer apply_now
delete_edge-nodes id s free = ground (arith, free)

module _ (is_utf8 : Text → Bool) where
  -- The file holds a log, and no transaction is open at its end.
  abbrev pub IsClosed : File → Type 0
  IsClosed file =
      (log : List RecordData) × Holds is_utf8 file log
      × ((apply_all log no_records).txn_buffer ≡ none)

  -- A file that `open` created.
  pub open_file-IsClosed : IsClosed (open_file none)
  open_file-IsClosed = ([], open_file-Holds is_utf8, refl)

  write_record-IsClosed :
      (r : RecordData) (file : File)
      → StaysClosed r
      → IsRecord is_utf8 r
      → IsClosed file
      → IsClosed (write_record r file)
  write_record-IsClosed r file stays hr (log, h, free) = (
    log ++ r ∷ [],
    write_record-Holds is_utf8 r hr h,
    ap (λ s. s.txn_buffer) (apply_all-append log (r ∷ []) no_records)
        ∙ stays (apply_all log no_records) free,
  )

  pub save_good :
      (n : Node) (file : File) → IsClosed file → IsNode is_utf8 n → IsClosed (save_node n file)
  unfolding write_record
  save_good n file good fits =
      write_record-IsClosed (upsert_node n) file (upsert_node-StaysClosed n) fits good

  pub delete_good :
      (id : NodeId) (file : File) → IsClosed file → IsU64 id → IsClosed (delete_node_in id file)
  unfolding write_record
  delete_good id file good small =
      write_record-IsClosed (delete_node id) file (delete_node-StaysClosed id) small good

  pub delete_edge_good :
      (id : EdgeId) (file : File) → IsClosed file → IsU64 id → IsClosed (delete_edge_in id file)
  unfolding write_record
  delete_edge_good id file good small =
      write_record-IsClosed (delete_edge id) file (delete_edge-StaysClosed id) small good

  pub keyed :
      (id : NodeId) (n : Node) (file : File)
      → IsClosed file
      → load_node is_utf8 id file ≡ ok (some n)
      → n.id ≡ id
  unfolding load_node
  keyed id n file (log, h, _) found =
      let nodes = (apply_all log no_records).nodes in
      let read : Map.get id nodes ≡ some n =
        ground (arith, found, ap (map_ok (λ s. Map.get id s.nodes)) (replay-Holds is_utf8 h)) in
      (AllEntries-get (NodeEntry is_utf8) id n nodes (tidy is_utf8 h).nodes.0 read).0

  pub saved :
      (n : Node) (file : File)
      → IsClosed file
      → IsNode is_utf8 n
      → load_node is_utf8 n.id (save_node n file) ≡ ok (some n)
  saved n file (log, h, free) hn =
      ground (arith, load_node-save_node is_utf8 h n n.id hn free, nat_beq_iff n.id n.id)

  pub save_other :
      (n : Node) (j : NodeId) (file : File)
      → IsClosed file
      → IsNode is_utf8 n
      → n.id ≢ j
      → load_node is_utf8 j (save_node n file) ≡ load_node is_utf8 j file
  save_other n j file (log, h, free) hn ne =
      ground (arith, load_node-save_node is_utf8 h n j hn free, nat_beq_iff n.id j)

  pub deleted :
      (id : NodeId) (file : File)
      → IsClosed file
      → IsU64 id
      → load_node is_utf8 id (delete_node_in id file) ≡ ok none
  deleted id file (log, h, free) small =
      ground (arith, load_node-delete_node is_utf8 h id id small free, nat_beq_iff id id)

  pub delete_other :
      (id j : NodeId) (file : File)
      → IsClosed file
      → IsU64 id
      → id ≢ j
      → load_node is_utf8 j (delete_node_in id file) ≡ load_node is_utf8 j file
  delete_other id j file (log, h, free) small ne =
      ground (arith, load_node-delete_node is_utf8 h id j small free, nat_beq_iff id j)

  pub delete_edge_keeps :
      (id : EdgeId) (j : NodeId) (file : File)
      → IsClosed file
      → IsU64 id
      → load_node is_utf8 j (delete_edge_in id file) ≡ load_node is_utf8 j file
  unfolding load_node write_record
  delete_edge_keeps id j file (log, h, free) small =
      let live = apply_all log no_records in
      ap (map_ok (λ s. Map.get j s.nodes)) (
        replay-Holds is_utf8 (write_record-Holds is_utf8 (delete_edge id) small h)
        ∙ ap ok (apply_all-append log (delete_edge id ∷ []) no_records))
      ∙ ap (λ m. ok (Map.get j m)) (delete_edge-nodes id live free)
      ∙ sym (ap (map_ok (λ s. Map.get j s.nodes)) (replay-Holds is_utf8 h))

  pub compact-IsClosed : (file : File) → IsClosed file → IsClosed ((port is_utf8).compact file).1
  compact-IsClosed file (log, h, _) =
      let (compacted, run, held) = compact-Holds is_utf8 h in
      rw run (
        live_records (apply_all log no_records),
        held,
        ap (λ s. s.txn_buffer)
            (apply_all-live_records is_utf8 (apply_all log no_records) (tidy is_utf8 h)),
      )

  pub compact_keeps :
      (j : NodeId) (file : File)
      → IsClosed file
      → load_node is_utf8 j ((port is_utf8).compact file).1 ≡ load_node is_utf8 j file
  compact_keeps j file (log, h, _) =
      let (compacted, run, _, nodes, _) = replay-compact is_utf8 h in rw run (nodes j)

  -- The laws of the contract, for the nodes within the bounds of their types.
  unfoldable pub laws : StorageLaws (port is_utf8)
  laws = record {
    IsGood = IsClosed;
    IsStorable = IsNode is_utf8;
    keyed = λ id n file good found. keyed id n file good found;
    save_good = λ n file good fits. save_good n file good fits;
    saved = λ n file good fits done. saved n file good fits;
    save_other = λ n j file good fits ne. save_other n j file good fits ne;
    save_failed = λ n e j file good failed. absurd (ground (arith, failed));
    delete_good = λ id file good small. delete_good id file good small;
    deleted = λ id file good small done. deleted id file good small;
    delete_other = λ id j file good small ne. delete_other id j file good small ne;
    delete_failed = λ id e j file good failed. absurd (ground (arith, failed));
    delete_edge_good = λ id file good small. delete_edge_good id file good small;
    delete_edge_keeps = λ id j file good small. delete_edge_keeps id j file good small;
    compact_good = λ file good. compact-IsClosed file good;
    compact_keeps = λ j file good. compact_keeps j file good;
  }
