-- ===== src/Storage/JsonFile/Contract.antt =====
-- The JSON adapter meets the contract of the port (src/ports/storage.rs): its good states are the files that hold a
-- log of whole lines.
use ad_graph_db.Base.{◌≡◌, refl, sym, ap, ◌∙◌, List, [], ◌∷◌, ◌++◌, some, nat_eq, arith}
use ad_graph_db.Base.Map
use ad_graph_db.Base.Map.Entries.{AllEntries-get}
use ad_graph_db.Core.{NodeId, EdgeId, Text, Node, GraphError, Result, ok, err, IsU64}
use ad_graph_db.Storage.Port.{StorageLaws}
use ad_graph_db.Storage.JsonFile.{
  WalRecord, put_node, drop_node, drop_edge, JsonOps, File, no_maps, apply_record, append_record,
  written, record_line, delete_edge, load_node, port,
}
use ad_graph_db.Storage.JsonFile.Lines.{IsJson, apply_all}
use ad_graph_db.Storage.JsonFile.Log.{
  Holds, load_node-Holds, load_node-append, append_record-Holds, save_node-Holds, delete_node-Holds,
}
use ad_graph_db.Storage.JsonFile.Compaction.{
  NodeEntry, apply_all-IsTidy, no_maps-IsTidy, load_node-compact,
}

-- A write that fails leaves the file.
written-err :
    (json : JsonOps) (file : File) (line : Result Text) (e : GraphError)
    → (written json file line).0 ≡ err e
    → (written json file line).1 ≡ file
written-err json file (ok line) e failed = absurd (ground (arith, failed))
written-err json file (err x) e failed = refl

append_record-err :
    (json : JsonOps) (r : WalRecord) (file : File) (e : GraphError)
    → (append_record json r file).0 ≡ err e
    → (append_record json r file).1 ≡ file
unfolding append_record
append_record-err json r file e failed = written-err json file (record_line json r) e failed

-- serde_json writes a number of 64 bits and reads it back, so the records of deletions can be written.
module _ (json : JsonOps) (drops_node : (id : NodeId) → IsU64 id → IsJson json (drop_node id))
    (drops_edge : (id : EdgeId) → IsU64 id → IsJson json (drop_edge id)) where
  -- The file holds a log.
  abbrev pub IsLog : File → Type 0
  IsLog file = (log : List WalRecord) × Holds json file log

  keyed :
      (id : NodeId) (n : Node) (file : File)
      → IsLog file
      → load_node json id file ≡ ok (some n)
      → n.id ≡ id
  keyed id n file (log, h) found =
      let nodes = (apply_all log no_maps).nodes in
      let read : Map.get id nodes ≡ some n =
        ground (arith, found, load_node-Holds json id file log h) in
      let tidy = apply_all-IsTidy json log no_maps h.records (no_maps-IsTidy json) in
      (AllEntries-get (NodeEntry json) id n nodes tidy.nodes_written read).0

  delete_edge_keeps :
      (id : EdgeId) (j : NodeId) (file : File)
      → IsLog file
      → IsU64 id
      → load_node json j (delete_edge json id file).1 ≡ load_node json j file
  unfolding apply_record
  delete_edge_keeps id j file (log, h) small =
      load_node-append json j file log (drop_edge id) h (drops_edge id small)
      ∙ sym (load_node-Holds json j file log h)

  -- The laws of the contract, for the nodes that serde_json can write and read back.
  pub laws : StorageLaws (port json)
  laws = record {
    IsGood = IsLog;
    IsStorable = λ n. IsJson json (put_node n);
    keyed = λ id n file good found. keyed id n file good found;
    save_good = λ n file (log, h) fits.
        (log ++ put_node n ∷ [], (save_node-Holds json file log n h fits).1);
    saved = λ n file (log, h) fits done. (save_node-Holds json file log n h fits).2;
    save_other = λ n j file (log, h) fits ne. (save_node-Holds json file log n h fits).3 j ne;
    save_failed = λ n e j file good failed.
        ap (load_node json j) (append_record-err json (put_node n) file e failed);
    delete_good = λ id file (log, h) small.
        (log ++ drop_node id ∷ [], (delete_node-Holds json file log id h (drops_node id small)).1);
    deleted = λ id file (log, h) small done.
        (delete_node-Holds json file log id h (drops_node id small)).2;
    delete_other = λ id j file (log, h) small ne.
        (delete_node-Holds json file log id h (drops_node id small)).3 j ne;
    delete_failed = λ id e j file good failed.
        ap (load_node json j) (append_record-err json (drop_node id) file e failed);
    delete_edge_good = λ id file (log, h) small. (
      log ++ drop_edge id ∷ [],
      (append_record-Holds json file log (drop_edge id) h (drops_edge id small)).1,
    );
    delete_edge_keeps = λ id j file good small. delete_edge_keeps id j file good small;
    compact_good = λ file (log, h). (_, (load_node-compact json file log h).1);
    compact_keeps = λ j file (log, h). (load_node-compact json file log h).3 j;
  }
