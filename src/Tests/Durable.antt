-- ===== src/Tests/Durable.antt =====
-- A small log, its file, and what the theorems of the durable layer say of them.
use ad_graph_db.Base.{
  ◌≡◌, refl, List, [], ◌∷◌, ◌++◌, Bool, true, none, some, arith, nat_eq, list_eq,
}
use ad_graph_db.Base.Map
use ad_graph_db.Core.{Text, integer, Node, NodeId, EdgeId, ok}
use ad_graph_db.Storage.Codec.{
  RecordData, upsert_node, delete_node, begin_txn, commit_txn, rollback_txn,
}
use ad_graph_db.Storage.Codec.Records.{IsNode}
use ad_graph_db.Storage.Replay.{
  header, no_records, apply_record, apply_or_buffer, apply_now, replay_loop, replay_bytes,
}
use ad_graph_db.Storage.Replay.Records.{encode_all, apply_all, AreRecords, replay_bytes-encode_all}
use ad_graph_db.Storage.Replay.Termination.{Runs, replay_loop-Runs}
use ad_graph_db.Storage.Replay.Transactions.{apply_all-rolled_back, DeletesLast}
use ad_graph_db.Storage.Replay.Commit.{committed, idle, get-committed, committed-reinsert}
use ad_graph_db.Storage.Replay.Tidy.{IsTidy, apply_all-IsTidy, no_records-IsTidy}
use ad_graph_db.Storage.BinaryFile.{
  File, open_file, save_node, delete_node_in, map_ok, replay, load_node, load_edge, compact,
}
use ad_graph_db.Storage.BinaryFile.Log.{
  Holds, write_record, open_file-Holds, write_record-Holds, load_node-save_node,
  load_node-delete_node, load_node-incomplete,
}
use ad_graph_db.Storage.BinaryFile.Compaction.{closed, replay-compact}

abbrev pub any_text : Text → Bool
any_text s = true

abbrev ada : Node
ada = record { id = 1; label = b'P' ∷ []; properties = (b'k' ∷ [], integer 7) ∷ [] }

abbrev bob : Node
bob = record { id = 2; label = b'P' ∷ []; properties = [] }

ada-IsNode : IsNode any_text ada
ada-IsNode = record {
  id = omega arith;
  label = record { utf8 = refl; short = omega arith };
  properties = record {
    entries = (record { utf8 = refl; short = omega arith }, omega arith, tt);
    distinct = (unfold Map.get in refl, tt);
    count = omega arith;
  };
}

bob-IsNode : IsNode any_text bob
bob-IsNode = record {
  id = omega arith;
  label = record { utf8 = refl; short = omega arith };
  properties = record { entries = tt; distinct = tt; count = omega arith };
}

-- One node outside a transaction, and one inside.
abbrev log : List RecordData
log = upsert_node ada ∷ begin_txn 5 ∷ upsert_node bob ∷ commit_txn 5 ∷ []

log-AreRecords : AreRecords any_text log
log-AreRecords = (ada-IsNode, (omega arith, (bob-IsNode, (omega arith, tt))))

replay_bytes-encode_all_example :
    replay_bytes any_text (header ++ encode_all log) ≡ ok (apply_all log no_records)
replay_bytes-encode_all_example = replay_bytes-encode_all any_text log log-AreRecords

abbrev fresh_file : File
fresh_file = open_file none

abbrev one_node : File
one_node = write_record (upsert_node ada) fresh_file

one_node-Holds : Holds any_text one_node (upsert_node ada ∷ [])
one_node-Holds = write_record-Holds any_text (upsert_node ada) ada-IsNode (open_file-Holds any_text)

one_node-closed : (apply_all (upsert_node ada ∷ []) no_records).txn_buffer ≡ none
unfolding apply_record apply_or_buffer apply_now
one_node-closed = refl

write_record-Holds_example :
    Holds any_text
      (write_record (upsert_node bob) one_node)
      (upsert_node ada ∷ upsert_node bob ∷ [])
write_record-Holds_example = write_record-Holds any_text (upsert_node bob) bob-IsNode one_node-Holds

load_node-save_node_example : load_node any_text 2 (save_node bob one_node) ≡ ok (some bob)
load_node-save_node_example =
    load_node-save_node any_text one_node-Holds bob 2 bob-IsNode one_node-closed

load_node-delete_node_example : load_node any_text 1 (delete_node_in 1 one_node) ≡ ok none
load_node-delete_node_example =
    load_node-delete_node any_text one_node-Holds 1 1 (omega arith) one_node-closed

-- The process dies behind the first save of a transaction.
abbrev crashed : File
crashed = write_record (upsert_node bob) (write_record (begin_txn 5) one_node)

crashed-Holds : Holds any_text crashed (upsert_node ada ∷ begin_txn 5 ∷ upsert_node bob ∷ [])
crashed-Holds =
    write_record-Holds any_text (upsert_node bob) bob-IsNode
      (write_record-Holds any_text (begin_txn 5) (omega arith) one_node-Holds)

load_node-incomplete_example : load_node any_text 2 crashed ≡ load_node any_text 2 one_node
load_node-incomplete_example =
    load_node-incomplete any_text one_node-Holds 5 2 (upsert_node bob ∷ []) (tt, tt) crashed-Holds

replay-compact_example :
    (compacted : File) × (compact any_text crashed ≡ ok compacted)
    × (replay any_text compacted ≡ map_ok closed (replay any_text crashed))
    × ((id : NodeId) → load_node any_text id compacted ≡ load_node any_text id crashed)
    × ((id : EdgeId) → load_edge any_text id compacted ≡ load_edge any_text id crashed)
replay-compact_example = replay-compact any_text crashed-Holds

replay_loop-Runs_example :
    Runs any_text (0x01 ∷ 0 ∷ []) no_records (replay_loop any_text 2 (0x01 ∷ 0 ∷ []) no_records)
replay_loop-Runs_example = replay_loop-Runs any_text 2 (0x01 ∷ 0 ∷ []) no_records (omega arith)

apply_all-IsTidy_example : IsTidy any_text (apply_all log no_records)
apply_all-IsTidy_example =
    apply_all-IsTidy any_text log no_records log-AreRecords (no_records-IsTidy any_text)

apply_all-rolled_back_example :
    apply_all (begin_txn 5 ∷ upsert_node bob ∷ rollback_txn 5 ∷ []) (idle ((1, ada) ∷ []) [])
    ≡ idle ((1, ada) ∷ []) []
apply_all-rolled_back_example =
    apply_all-rolled_back 5 5 (upsert_node bob ∷ []) (idle ((1, ada) ∷ []) []) (tt, tt)

abbrev swap_nodes : List RecordData
swap_nodes = upsert_node bob ∷ delete_node 1 ∷ []

deleted_last : DeletesLast swap_nodes
deleted_last = (unfold Map.get in refl, tt)

get-committed_example :
    Map.get 2 (committed 5 swap_nodes (idle ((1, ada) ∷ []) [])).nodes
    ≡ Map.get 2 (apply_all swap_nodes (idle ((1, ada) ∷ []) [])).nodes
get-committed_example = get-committed 5 2 swap_nodes ((1, ada) ∷ []) [] (tt, (tt, tt)) deleted_last

committed-reinsert_example :
    (Map.get 1 (committed 5 (delete_node 1 ∷ upsert_node ada ∷ []) (idle [] [])).nodes ≡ none)
    × (Map.get 1 (apply_all (delete_node 1 ∷ upsert_node ada ∷ []) (idle [] [])).nodes ≡ some ada)
committed-reinsert_example = committed-reinsert 5 ada [] []
