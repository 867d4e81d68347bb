-- ===== src/Storage/Replay.antt =====
-- The replay of the binary log (src/adapters/storage/binary_file.rs): `while pos < data.len()` recurs on fuel, for which the
-- number of bytes is enough (Replay/Termination).
pub mod Records
pub mod Transactions
pub mod Commit
pub mod Termination
pub mod Tidy
use mathlib.Core.List.{foldl}
use ad_graph_db.Base.{
  ℕ, zero, suc, ◌+◌, ◌-◌, List, [], ◌∷◌, ◌++◌, Bool, true, false, not, Option, none, some, length,
  take, drop, ltb, ◌==◌, nat_eq, list_eq, if◌then◌else◌, map,
}
use ad_graph_db.Base.Map
use ad_graph_db.Base.Map.Extend
use ad_graph_db.Core.{
  NodeId, EdgeId, Text, Node, Edge, invalid_magic, unsupported_version, deserialization_error,
  Result, ok, err,
}
use ad_graph_db.Storage.Bytes.{from_le}
use ad_graph_db.Storage.Checksum.{adler32}
use ad_graph_db.Storage.Codec.{
  RecordData, upsert_node, upsert_edge, delete_node, delete_edge, begin_txn, commit_txn,
  rollback_txn, write_u32, encode_node, encode_edge, encode_delete_node, encode_delete_edge,
  encode_txn_marker, read_u32, decode_record,
}

abbrev pub magic : List ℕ
magic = b'A' ∷ b'G' ∷ b'D' ∷ b'B' ∷ []

abbrev pub version : ℕ
version = 2

unfoldable pub header : List ℕ
header = magic ++ write_u32 version

-- The records of the open transaction, by kind.
pub record TxnBuffer : Type 0 where
  pub txn_id : ℕ
  pub n_ins : List (NodeId × Node)
  pub e_ins : List (EdgeId × Edge)
  pub n_del : List NodeId
  pub e_del : List EdgeId

-- The live state of the two maps, and the buffer.
pub record Replayed : Type 0 where
  pub nodes : List (NodeId × Node)
  pub edges : List (EdgeId × Edge)
  pub txn_buffer : Option TxnBuffer

abbrev pub no_records : Replayed
no_records = record { nodes = []; edges = []; txn_buffer = none }

abbrev pub empty_buffer : ℕ → TxnBuffer
empty_buffer id = record { txn_id = id; n_ins = []; e_ins = []; n_del = []; e_del = [] }

abbrev pub remove_all {ℓ} : {V : Type ℓ} → List ℕ → List (ℕ × V) → List (ℕ × V)
remove_all [] m = m
remove_all (k ∷ ks) m = remove_all ks (Map.remove k m)

-- `apply_or_buffer` where no transaction is open.
unfoldable pub apply_now : RecordData → Replayed → Replayed
apply_now (upsert_node n) s = record s { nodes = Map.insert n.id n s.nodes }
apply_now (upsert_edge e) s = record s { edges = Map.insert e.id e s.edges }
apply_now (delete_node id) s = record s { nodes = Map.remove id s.nodes }
apply_now (delete_edge id) s = record s { edges = Map.remove id s.edges }
apply_now _ s = s

-- `apply_or_buffer` inside a transaction.
unfoldable pub buffer_record : RecordData → TxnBuffer → TxnBuffer
buffer_record (upsert_node n) b = record b { n_ins = b.n_ins ++ (n.id, n) ∷ [] }
buffer_record (upsert_edge e) b = record b { e_ins = b.e_ins ++ (e.id, e) ∷ [] }
buffer_record (delete_node id) b = record b { n_del = b.n_del ++ id ∷ [] }
buffer_record (delete_edge id) b = record b { e_del = b.e_del ++ id ∷ [] }
buffer_record _ b = b

unfoldable pub apply_or_buffer : RecordData → Replayed → Replayed
apply_or_buffer r s = elim s.txn_buffer [
  | none ↦ apply_now r s
  | some b ↦ record s { txn_buffer = some (buffer_record r b) }
]

-- What a `CommitTxn` marker does with the buffer that it takes.
unfoldable pub commit_buffer : ℕ → TxnBuffer → Replayed → Replayed
commit_buffer txn_id b s =
    if b.txn_id == txn_id
    then record {
      nodes = remove_all b.n_del (Map.Extend.extend b.n_ins s.nodes);
      edges = remove_all b.e_del (Map.Extend.extend b.e_ins s.edges);
      txn_buffer = none;
    }
    else record s { txn_buffer = none }

-- The `match decoded` of the loop, where the record was decoded.
unfoldable pub apply_record : RecordData → Replayed → Replayed
apply_record (begin_txn id) s = record s { txn_buffer = some (empty_buffer id) }
apply_record (commit_txn id) s = elim s.txn_buffer [ none ↦ s | some b ↦ commit_buffer id b s ]
apply_record (rollback_txn id) s = record s { txn_buffer = none }
apply_record (upsert_node n) s = apply_or_buffer (upsert_node n) s
apply_record (upsert_edge e) s = apply_or_buffer (upsert_edge e) s
apply_record (delete_node id) s = apply_or_buffer (delete_node id) s
apply_record (delete_edge id) s = apply_or_buffer (delete_edge id) s

-- One round of the loop breaks, or goes on behind the bytes that it read.
pub data Round : Type 0 where
  stop : Round
  go_on : List ℕ → Replayed → Round

-- The rest of a round, once the record at `bytes` was decoded and its checksum read.
unfoldable pub finish_round : List ℕ → Result RecordData → Result ℕ → List ℕ → Replayed → Round
finish_round bytes decoded (err _) rest s = stop
finish_round bytes decoded (ok stored) rest s =
    if adler32 (take (length bytes - length rest - 4) bytes) == stored
    then elim decoded [ ok r ↦ go_on rest (apply_record r s) | err _ ↦ stop ]
    else go_on rest s

module _ (is_utf8 : Text → Bool) where
  unfoldable pub replay_round : ℕ → List ℕ → Replayed → Round
  unfolding finish_round
  replay_round record_type bytes s =
      let (decoded, behind) = decode_record is_utf8 record_type bytes in
      let (stored, rest) = read_u32 behind in
      finish_round (record_type ∷ bytes) decoded stored rest s

  unfoldable pub replay_loop : ℕ → List ℕ → Replayed → Replayed
  replay_loop zero bytes s = s
  replay_loop (suc fuel) [] s = s
  replay_loop (suc fuel) (record_type ∷ bytes) s = elim (replay_round record_type bytes s) [
    | stop ↦ s
    | go_on rest s' ↦ replay_loop fuel rest s'
  ]

  -- A file shorter than the header is an empty database.
  unfoldable pub replay_bytes : List ℕ → Result Replayed
  replay_bytes bytes =
      if ltb (length bytes) 8
      then ok no_records
      else if not (take 4 bytes == magic)
      then err (deserialization_error invalid_magic)
      else if not (from_le (take 4 (drop 4 bytes)) == version)
      then err (deserialization_error (unsupported_version (from_le (take 4 (drop 4 bytes)))))
      else ok (replay_loop (length bytes) (drop 8 bytes) no_records)
