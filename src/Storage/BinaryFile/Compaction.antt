-- ===== src/Storage/BinaryFile/Compaction.antt =====
-- `compact` writes the live nodes and edges into a new file: nothing that a load sees is lost.
use ad_graph_db.Base.{◌≡◌, refl, ap, sym, ◌∙◌, List, [], ◌∷◌, ◌++◌, Bool, none, some, nat_eq, map}
use ad_graph_db.Base.Map
use ad_graph_db.Base.Map.Extend.{extend, extend-nil}
use ad_graph_db.Core.{NodeId, EdgeId, Text, Node, Edge, ok}
use ad_graph_db.Storage.Codec.{RecordData, upsert_node, upsert_edge}
use ad_graph_db.Storage.Codec.Records.{encode}
use ad_graph_db.Storage.Replay.{
  header, Replayed, no_records, apply_now, apply_or_buffer, apply_record,
}
use ad_graph_db.Storage.Replay.Records.{encode_all, apply_all, AreRecords}
use ad_graph_db.Storage.Replay.Transactions.{apply_all-append}
use ad_graph_db.Storage.Replay.Tidy.{
  NodeEntry, EdgeEntry, IsTidy, apply_all-IsTidy, no_records-IsTidy,
}
use ad_graph_db.Base.Map.Entries.{AllEntries}
use ad_graph_db.Storage.BinaryFile.{
  File, encode_nodes, encode_edges, map_ok, replay, load_node, load_edge, compact,
}
use ad_graph_db.Storage.BinaryFile.Log.{Holds, encode_all-append, AreRecords-append, replay-Holds}

-- The records that a compacted file holds.
abbrev node_records : List (NodeId × Node) → List RecordData
node_records = map (λ e. upsert_node e.1)

abbrev edge_records : List (EdgeId × Edge) → List RecordData
edge_records = map (λ e. upsert_edge e.1)

-- Without the open transaction.
abbrev pub closed : Replayed → Replayed
closed s = record s { txn_buffer = none }

abbrev pub live_records : Replayed → List RecordData
live_records s = node_records s.nodes ++ edge_records s.edges

encode_nodes-eq : (m : List (NodeId × Node)) → encode_nodes m ≡ encode_all (node_records m)
unfolding encode_nodes encode_all encode
encode_nodes-eq [] = refl
encode_nodes-eq ((k, n) ∷ m) = rw (encode_nodes-eq m)

encode_edges-eq : (m : List (EdgeId × Edge)) → encode_edges m ≡ encode_all (edge_records m)
unfolding encode_edges encode_all encode
encode_edges-eq [] = refl
encode_edges-eq ((k, e) ∷ m) = rw (encode_edges-eq m)

module _ (is_utf8 : Text → Bool) where
  abbrev pub state : List (NodeId × Node) → List (EdgeId × Edge) → Replayed
  state ns es = record { nodes = ns; edges = es; txn_buffer = none }

  node_records-AreRecords :
      (m : List (NodeId × Node))
      → AllEntries (NodeEntry is_utf8) m
      → AreRecords is_utf8 (node_records m)
  node_records-AreRecords [] h = tt
  node_records-AreRecords ((k, n) ∷ m) ((_, hn), h) = (hn, node_records-AreRecords m h)

  edge_records-AreRecords :
      (m : List (EdgeId × Edge))
      → AllEntries (EdgeEntry is_utf8) m
      → AreRecords is_utf8 (edge_records m)
  edge_records-AreRecords [] h = tt
  edge_records-AreRecords ((k, e) ∷ m) ((_, he), h) = (he, edge_records-AreRecords m h)

  apply_nodes :
      (m acc : List (NodeId × Node)) (es : List (EdgeId × Edge))
      → AllEntries (NodeEntry is_utf8) m
      → apply_all (node_records m) (state acc es) ≡ state (extend m acc) es
  unfolding apply_record apply_or_buffer apply_now
  apply_nodes [] acc es h = refl
  apply_nodes ((k, n) ∷ m) acc es ((same, _), h) =
      ap (λ i. apply_all (node_records m) (state (Map.insert i n acc) es)) same
      ∙ apply_nodes m (Map.insert k n acc) es h

  apply_edges :
      (m acc : List (EdgeId × Edge)) (ns : List (NodeId × Node))
      → AllEntries (EdgeEntry is_utf8) m
      → apply_all (edge_records m) (state ns acc) ≡ state ns (extend m acc)
  unfolding apply_record apply_or_buffer apply_now
  apply_edges [] acc ns h = refl
  apply_edges ((k, e) ∷ m) acc ns ((same, _), h) =
      ap (λ i. apply_all (edge_records m) (state ns (Map.insert i e acc))) same
      ∙ apply_edges m (Map.insert k e acc) ns h

  -- The records of a tidy state rebuild it, less an open transaction.
  pub apply_all-live_records :
      (s : Replayed)
      → IsTidy is_utf8 s
      → apply_all (live_records s) no_records ≡ state s.nodes s.edges
  apply_all-live_records s h =
      apply_all-append (node_records s.nodes) (edge_records s.edges) no_records
      ∙ ap (apply_all (edge_records s.edges)) (
          apply_nodes s.nodes [] [] h.nodes.0
          ∙ ap (λ ns. state ns []) (extend-nil s.nodes h.nodes.1))
      ∙ apply_edges s.edges [] s.nodes h.edges.0
      ∙ ap (state s.nodes) (extend-nil s.edges h.edges.1)

  module _ {file : File} {log : List RecordData} (h : Holds is_utf8 file log) where
    abbrev live : Replayed
    live = apply_all log no_records

    pub tidy : IsTidy is_utf8 live
    tidy = apply_all-IsTidy is_utf8 log no_records h.records (no_records-IsTidy is_utf8)

    -- The compaction of a log succeeds, and leaves a log of the live nodes and edges only.
    pub compact-Holds :
        (compacted : File) × (compact is_utf8 file ≡ ok compacted)
        × Holds is_utf8 compacted (live_records live)
    unfolding compact
    compact-Holds = (
      some (header ++ (encode_nodes live.nodes ++ encode_edges live.edges)),
      ap (map_ok _) (replay-Holds is_utf8 h),
      record {
        bytes =
            ap (λ b. some (header ++ b))
              (ap (λ a. a ++ encode_edges live.edges) (encode_nodes-eq live.nodes)
                ∙ ap (◌++◌ (encode_all (node_records live.nodes))) (encode_edges-eq live.edges)
                ∙ sym (encode_all-append (node_records live.nodes) (edge_records live.edges)));
        records =
            AreRecords-append is_utf8 (node_records live.nodes) (edge_records live.edges)
              (node_records-AreRecords live.nodes tidy.nodes.0)
              (edge_records-AreRecords live.edges tidy.edges.0);
      },
    )

    -- On a file that holds a log of well-formed records, compaction succeeds; the new file replays to
    -- the same nodes and the same edges in the same order, with no transaction open, and every node and
    -- every edge loads as before.
    pub replay-compact :
        (compacted : File) × (compact is_utf8 file ≡ ok compacted)
        × (replay is_utf8 compacted ≡ map_ok closed (replay is_utf8 file))
        × ((id : NodeId) → load_node is_utf8 id compacted ≡ load_node is_utf8 id file)
        × ((id : EdgeId) → load_edge is_utf8 id compacted ≡ load_edge is_utf8 id file)
    unfolding load_node load_edge
    replay-compact =
        let (compacted, run, held) = compact-Holds in
        let again : replay is_utf8 compacted ≡ ok (state live.nodes live.edges) =
          replay-Holds is_utf8 held ∙ ap ok (apply_all-live_records live tidy) in
        let before = replay-Holds is_utf8 h in
        (
          compacted,
          run,
          again ∙ sym (ap (map_ok closed) before),
          (λ id.
              ap (map_ok (λ s. Map.get id s.nodes)) again
              ∙ sym (ap (map_ok (λ s. Map.get id s.nodes)) before)),
          (λ id.
              ap (map_ok (λ s. Map.get id s.edges)) again
              ∙ sym (ap (map_ok (λ s. Map.get id s.edges)) before)),
        )
