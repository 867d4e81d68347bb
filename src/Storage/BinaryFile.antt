-- ===== src/Storage/BinaryFile.antt =====
-- The methods of `BinaryFileStorage` (src/adapters/storage/binary_file.rs).
--
-- The file is its bytes, or absent. The operating system's reads and writes succeed; what a crash
-- leaves of the file is any list of bytes.
pub mod Log
pub mod Compaction
pub mod Contract
use ad_graph_db.Base.{ℕ, List, [], ◌∷◌, ◌++◌, length, Bool, Option, none, some, nat_eq}
use ad_graph_db.Base.Map
use ad_graph_db.Core.{NodeId, EdgeId, Text, Node, Edge, Result, ok, err}
use ad_graph_db.Storage.Codec.{
  encode_node, encode_edge, encode_delete_node, encode_delete_edge, encode_txn_marker,
}
use ad_graph_db.Storage.Port.{StoragePort}
use ad_graph_db.Storage.Replay.{header, Replayed, no_records, replay_bytes}

-- The file of the adapter: absent, or its bytes.
abbrev pub File : Type 0
File = Option (List ℕ)

-- `BinaryFileStorage::open`
unfoldable pub open_file : File → File
open_file none = some header
open_file (some bytes) = some bytes

unfoldable pub append_bytes : List ℕ → File → File
append_bytes bytes none = some bytes
append_bytes bytes (some old) = some (old ++ bytes)

unfoldable pub save_node : Node → File → File
save_node n = append_bytes (encode_node n)

unfoldable pub save_edge : Edge → File → File
save_edge e = append_bytes (encode_edge e)

unfoldable pub delete_node_in : NodeId → File → File
delete_node_in id = append_bytes (encode_delete_node id)

unfoldable pub delete_edge_in : EdgeId → File → File
delete_edge_in id = append_bytes (encode_delete_edge id)

unfoldable pub begin_wal_transaction : ℕ → File → File
begin_wal_transaction id = append_bytes (encode_txn_marker 0x05 id)

unfoldable pub commit_wal_transaction : ℕ → File → File
commit_wal_transaction id = append_bytes (encode_txn_marker 0x06 id)

unfoldable pub rollback_wal_transaction : ℕ → File → File
rollback_wal_transaction id = append_bytes (encode_txn_marker 0x07 id)

unfoldable pub encode_nodes : List (NodeId × Node) → List ℕ
encode_nodes [] = []
encode_nodes ((_, n) ∷ nodes) = encode_node n ++ encode_nodes nodes

unfoldable pub encode_edges : List (EdgeId × Edge) → List ℕ
encode_edges [] = []
encode_edges ((_, e) ∷ edges) = encode_edge e ++ encode_edges edges

abbrev pub map_ok : {A B : Type 0} → (A → B) → Result A → Result B
map_ok f (ok a) = ok (f a)
map_ok f (err e) = err e

module _ (is_utf8 : Text → Bool) where
  unfoldable pub replay : File → Result Replayed
  replay none = ok no_records
  replay (some bytes) = replay_bytes is_utf8 bytes

  unfoldable pub load_node : NodeId → File → Result (Option Node)
  load_node id file = map_ok (λ s. Map.get id s.nodes) (replay file)

  unfoldable pub load_edge : EdgeId → File → Result (Option Edge)
  load_edge id file = map_ok (λ s. Map.get id s.edges) (replay file)

  unfoldable pub load_all_nodes : File → Result (List Node)
  load_all_nodes file = map_ok (λ s. Map.values s.nodes) (replay file)

  unfoldable pub load_all_edges : File → Result (List Edge)
  load_all_edges file = map_ok (λ s. Map.values s.edges) (replay file)

  -- The file that the rename leaves.
  unfoldable pub compact : File → Result File
  compact file =
      map_ok (λ s. some (header ++ (encode_nodes s.nodes ++ encode_edges s.edges))) (replay file)

-- The adapter as a value of the port. A compaction that fails leaves the file.
abbrev compacted : Result File → File → Result {0} Unit × File
compacted (ok file') file = (ok tt, file')
compacted (err e) file = (err e, file)

abbrev size : File → ℕ
size none = 0
size (some bytes) = length bytes

abbrev pub port : (Text → Bool) → StoragePort File
port is_utf8 = record {
  save_node = λ n file. (ok tt, save_node n file);
  load_node = load_node is_utf8;
  delete_node = λ id file. (ok tt, delete_node_in id file);
  save_edge = λ e file. (ok tt, save_edge e file);
  load_edge = load_edge is_utf8;
  delete_edge = λ id file. (ok tt, delete_edge_in id file);
  load_all_nodes = load_all_nodes is_utf8;
  load_all_edges = load_all_edges is_utf8;
  compact = λ file. compacted (compact is_utf8 file) file;
  wal_size_bytes = size;
  begin_wal_transaction = λ id file. (ok tt, begin_wal_transaction id file);
  commit_wal_transaction = λ id file. (ok tt, commit_wal_transaction id file);
  rollback_wal_transaction = λ id file. (ok tt, rollback_wal_transaction id file);
}
