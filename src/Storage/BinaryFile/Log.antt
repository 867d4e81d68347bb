-- ===== src/Storage/BinaryFile/Log.antt =====
-- The file as a log of records: what a load returns after a save, a deletion or a crash between two records.
use mathlib.Core.List.{append_assoc, append-nil}
use ad_graph_db.Base.{
  ℕ, ◌≡◌, refl, ap, sym, ◌∙◌, List, [], ◌∷◌, ◌++◌, Bool, none, some, nat_eq, ◌==◌, if◌then◌else◌,
  arith,
}
use ad_graph_db.Base.Map
use ad_graph_db.Core.{NodeId, Text, Node, ok, IsU64}
use ad_graph_db.Storage.Codec.{
  RecordData, upsert_node, upsert_edge, delete_node, delete_edge, begin_txn, commit_txn,
  rollback_txn,
}
use ad_graph_db.Storage.Codec.Records.{encode, IsRecord, IsNode}
use ad_graph_db.Storage.Replay.{header, no_records, apply_now, apply_or_buffer, apply_record}
use ad_graph_db.Storage.Replay.Records.{encode_all, apply_all, AreRecords, replay_bytes-encode_all}
use ad_graph_db.Storage.Replay.Transactions.{AreData, apply_all-append, apply_all-incomplete}
use ad_graph_db.Storage.BinaryFile.{
  File, open_file, append_bytes, save_node, save_edge, delete_node_in, delete_edge_in,
  begin_wal_transaction, commit_wal_transaction, rollback_wal_transaction, replay, load_node,
  map_ok,
}

-- The file holds the header and the encodings of the log.
pub record Holds (is_utf8 : Text → Bool) (file : File) (log : List RecordData) : Type 0 where
  pub bytes : file ≡ some (header ++ encode_all log)
  pub records : AreRecords is_utf8 log

-- The method of the adapter that writes a record.
unfoldable pub write_record : RecordData → File → File
write_record (upsert_node n) = save_node n
write_record (upsert_edge e) = save_edge e
write_record (delete_node id) = delete_node_in id
write_record (delete_edge id) = delete_edge_in id
write_record (begin_txn id) = begin_wal_transaction id
write_record (commit_txn id) = commit_wal_transaction id
write_record (rollback_txn id) = rollback_wal_transaction id

write_record-eq :
    (r : RecordData) (file : File) → write_record r file ≡ append_bytes (encode r) file
unfolding write_record encode save_node save_edge delete_node_in delete_edge_in
    begin_wal_transaction commit_wal_transaction rollback_wal_transaction
write_record-eq (upsert_node n) file = refl
write_record-eq _ file = refl

pub encode_all-append :
    (xs ys : List RecordData) → encode_all (xs ++ ys) ≡ encode_all xs ++ encode_all ys
unfolding encode_all
encode_all-append [] ys = refl
encode_all-append (x ∷ xs) ys =
    ap (◌++◌ (encode x)) (encode_all-append xs ys)
    ∙ sym (append_assoc (encode x) (encode_all xs) (encode_all ys))

module _ (is_utf8 : Text → Bool) where
  pub AreRecords-append :
      (xs ys : List RecordData)
      → AreRecords is_utf8 xs
      → AreRecords is_utf8 ys
      → AreRecords is_utf8 (xs ++ ys)
  AreRecords-append [] ys hx hy = hy
  AreRecords-append (x ∷ xs) ys (h, hx) hy = (h, AreRecords-append xs ys hx hy)

  -- A file that `open` created holds the empty log.
  pub open_file-Holds : Holds is_utf8 (open_file none) []
  unfolding open_file encode_all
  open_file-Holds = record { bytes = ap some (sym (append-nil header)); records = tt }

  -- On a file that holds a log, each method that writes leaves a file that holds the log with one record
  -- more, if the record is within the bounds of its types.
  pub write_record-Holds :
      (r : RecordData) {file : File} {log : List RecordData}
      → IsRecord is_utf8 r
      → Holds is_utf8 file log
      → Holds is_utf8 (write_record r file) (log ++ r ∷ [])
  unfolding append_bytes
  write_record-Holds r {file} {log} hr h = record {
    bytes =
        write_record-eq r file
        ∙ ap (append_bytes (encode r)) h.bytes
        ∙ ap some (
            append_assoc header (encode_all log) (encode r)
            ∙ ap (◌++◌ header) (sym (encode_all-append log (r ∷ []) ∙ last)));
    records = AreRecords-append log (r ∷ []) h.records (hr, tt);
  }
    where
      last : encode_all log ++ encode_all (r ∷ []) ≡ encode_all log ++ encode r
      last = unfold encode_all in ap (◌++◌ (encode_all log)) (append-nil (encode r))

  -- What replay makes of a file is what its log stands for.
  pub replay-Holds :
      {file : File} {log : List RecordData}
      → Holds is_utf8 file log
      → replay is_utf8 file ≡ ok (apply_all log no_records)
  unfolding replay
  replay-Holds {file} {log} h = rw h.bytes (replay_bytes-encode_all is_utf8 log h.records)

  module _ {file : File} {log : List RecordData} (h : Holds is_utf8 file log) where
    after :
        (r : RecordData)
        → IsRecord is_utf8 r
        → replay is_utf8 (write_record r file) ≡ ok (apply_record r (apply_all log no_records))
    after r hr =
        replay-Holds (write_record-Holds r hr h) ∙ ap ok (apply_all-append log (r ∷ []) no_records)

    -- With no transaction open, a node that was saved is what `load_node` returns under its id, and
    -- every other id reads as before.
    pub load_node-save_node :
        (n : Node) (id : NodeId)
        → IsNode is_utf8 n
        → (apply_all log no_records).txn_buffer ≡ none
        → load_node is_utf8 id (save_node n file)
          ≡ (if n.id == id then ok (some n) else load_node is_utf8 id file)
    unfolding load_node write_record apply_record apply_or_buffer apply_now
    load_node-save_node n id hn free = ground (
      arith,
      after (upsert_node n) hn,
      replay-Holds h,
      Map.get-insert n.id id n (apply_all log no_records).nodes,
    )

    -- With no transaction open, a deleted node reads as absent, and every other id as before.
    pub load_node-delete_node :
        (gone id : NodeId)
        → IsU64 gone
        → (apply_all log no_records).txn_buffer ≡ none
        → load_node is_utf8 id (delete_node_in gone file)
          ≡ (if gone == id then ok none else load_node is_utf8 id file)
    unfolding load_node write_record apply_record apply_or_buffer apply_now
    load_node-delete_node gone id hg free = ground (
      arith,
      after (delete_node gone) hg,
      replay-Holds h,
      Map.get-remove gone id (apply_all log no_records).nodes,
    )

    -- If a file holds the log and behind it, whole, the begin marker of a transaction and any of its data
    -- records, with neither a commit nor a rollback marker, every node loads as it does from the log alone;
    -- a crash inside a record is not covered.
    pub load_node-incomplete :
        (txn_id id : ℕ) (ops : List RecordData) {crashed : File}
        → AreData ops
        → Holds is_utf8 crashed (log ++ begin_txn txn_id ∷ ops)
        → load_node is_utf8 id crashed ≡ load_node is_utf8 id file
    unfolding load_node
    load_node-incomplete txn_id id ops hd hc =
        ap (map_ok (λ s. Map.get id s.nodes))
          (replay-Holds hc ∙ ap ok (apply_all-append log (begin_txn txn_id ∷ ops) no_records))
        ∙ ap (λ m. ok (Map.get id m))
            (apply_all-incomplete txn_id ops (apply_all log no_records) hd).0
        ∙ sym (ap (map_ok (λ s. Map.get id s.nodes)) (replay-Holds h))
