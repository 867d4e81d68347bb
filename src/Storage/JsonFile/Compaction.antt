-- ===== src/Storage/JsonFile/Compaction.antt =====
-- `compact` of the JSON adapter writes the live nodes and edges into a new file: nothing that a load sees is lost.
use ad_graph_db.Base.{◌≡◌, refl, ap, ◌∙◌, List, [], ◌∷◌, map, some, nat_eq}
use ad_graph_db.Base.Map
use ad_graph_db.Base.Map.Distinct.{IsMap, insert-IsMap, remove-IsMap}
use ad_graph_db.Base.Map.Entries.{AllEntries, insert-AllEntries, remove-AllEntries}
use ad_graph_db.Base.Map.Extend.{extend, extend-nil}
use ad_graph_db.Core.{NodeId, EdgeId, Node, Edge, ok}
use ad_graph_db.Storage.JsonFile.{
  WalRecord, put_node, put_edge, drop_node, drop_edge, JsonOps, File, Maps, no_maps, apply_record,
  replay, load_node, load_edge, live_records, compact,
}
use ad_graph_db.Storage.JsonFile.Lines.{
  IsJson, AreJson, apply_all, apply_all-append, log_bytes, record_lines-AreJson,
}
use ad_graph_db.Storage.JsonFile.Log.{Holds, are_json_append, replay-Holds}

abbrev node_records : List (NodeId × Node) → List WalRecord
node_records = map (λ e. put_node e.1)

abbrev edge_records : List (EdgeId × Edge) → List WalRecord
edge_records = map (λ e. put_edge e.1)

abbrev state : List (NodeId × Node) → List (EdgeId × Edge) → Maps
state ns es = record { nodes = ns; edges = es }

module _ (json : JsonOps) where
  abbrev pub NodeEntry : NodeId → Node → Type 0
  NodeEntry id n = (n.id ≡ id) × IsJson json (put_node n)

  abbrev pub EdgeEntry : EdgeId → Edge → Type 0
  EdgeEntry id e = (e.id ≡ id) × IsJson json (put_edge e)

  -- Every node and every edge stands under its own id, once, and can be written.
  pub record IsTidy (m : Maps) : Type 0 where
    pub nodes_written : AllEntries NodeEntry m.nodes
    pub nodes_once : IsMap m.nodes
    pub edges_written : AllEntries EdgeEntry m.edges
    pub edges_once : IsMap m.edges

  apply_record-IsTidy :
      (r : WalRecord) (m : Maps) → IsJson json r → IsTidy m → IsTidy (apply_record r m)
  unfolding apply_record
  apply_record-IsTidy (put_node n) m h t = record {
    nodes_written = insert-AllEntries NodeEntry n.id n m.nodes (refl, h) t.nodes_written;
    nodes_once = insert-IsMap n.id n m.nodes t.nodes_once;
    edges_written = t.edges_written;
    edges_once = t.edges_once;
  }
  apply_record-IsTidy (put_edge e) m h t = record {
    nodes_written = t.nodes_written;
    nodes_once = t.nodes_once;
    edges_written = insert-AllEntries EdgeEntry e.id e m.edges (refl, h) t.edges_written;
    edges_once = insert-IsMap e.id e m.edges t.edges_once;
  }
  apply_record-IsTidy (drop_node id) m h t = record {
    nodes_written = remove-AllEntries NodeEntry id m.nodes t.nodes_written;
    nodes_once = remove-IsMap id m.nodes t.nodes_once;
    edges_written = t.edges_written;
    edges_once = t.edges_once;
  }
  apply_record-IsTidy (drop_edge id) m h t = record {
    nodes_written = t.nodes_written;
    nodes_once = t.nodes_once;
    edges_written = remove-AllEntries EdgeEntry id m.edges t.edges_written;
    edges_once = remove-IsMap id m.edges t.edges_once;
  }

  pub apply_all-IsTidy :
      (rs : List WalRecord) (m : Maps) → AreJson json rs → IsTidy m → IsTidy (apply_all rs m)
  apply_all-IsTidy [] m h t = t
  apply_all-IsTidy (r ∷ rs) m (h, hs) t =
      apply_all-IsTidy rs (apply_record r m) hs (apply_record-IsTidy r m h t)

  pub no_maps-IsTidy : IsTidy no_maps
  no_maps-IsTidy = record {
    nodes_written = tt;
    nodes_once = tt;
    edges_written = tt;
    edges_once = tt;
  }

  node_records-AreJson :
      (m : List (NodeId × Node)) → AllEntries NodeEntry m → AreJson json (node_records m)
  node_records-AreJson [] h = tt
  node_records-AreJson ((k, n) ∷ m) ((_, hn), h) = (hn, node_records-AreJson m h)

  edge_records-AreJson :
      (m : List (EdgeId × Edge)) → AllEntries EdgeEntry m → AreJson json (edge_records m)
  edge_records-AreJson [] h = tt
  edge_records-AreJson ((k, e) ∷ m) ((_, he), h) = (he, edge_records-AreJson m h)

  apply_nodes :
      (m acc : List (NodeId × Node)) (es : List (EdgeId × Edge))
      → AllEntries NodeEntry m
      → apply_all (node_records m) (state acc es) ≡ state (extend m acc) es
  unfolding apply_record
  apply_nodes [] acc es h = refl
  apply_nodes ((k, n) ∷ m) acc es ((same, _), h) =
      ap (λ i. apply_all (node_records m) (state (Map.insert i n acc) es)) same
      ∙ apply_nodes m (Map.insert k n acc) es h

  apply_edges :
      (m acc : List (EdgeId × Edge)) (ns : List (NodeId × Node))
      → AllEntries EdgeEntry m
      → apply_all (edge_records m) (state ns acc) ≡ state ns (extend m acc)
  unfolding apply_record
  apply_edges [] acc ns h = refl
  apply_edges ((k, e) ∷ m) acc ns ((same, _), h) =
      ap (λ i. apply_all (edge_records m) (state ns (Map.insert i e acc))) same
      ∙ apply_edges m (Map.insert k e acc) ns h

  -- The live records of tidy maps rebuild them.
  apply_all-live_records : (m : Maps) → IsTidy m → apply_all (live_records m) no_maps ≡ m
  apply_all-live_records m t =
      apply_all-append (node_records m.nodes) (edge_records m.edges) no_maps
      ∙ ap (apply_all (edge_records m.edges)) (
          apply_nodes m.nodes [] [] t.nodes_written
          ∙ ap (λ ns. state ns []) (extend-nil m.nodes t.nodes_once))
      ∙ apply_edges m.edges [] m.nodes t.edges_written
      ∙ ap (state m.nodes) (extend-nil m.edges t.edges_once)

  -- On a file that holds a log of records that serde_json can write and read back, compaction succeeds; the
  -- new file holds the live nodes and edges only, replays to the same maps in the same order, and every node
  -- and every edge loads as before.
  pub load_node-compact :
      (file : File) (log : List WalRecord)
      → Holds json file log
      → ((compact json file).0 ≡ ok tt)
        × Holds json (compact json file).1 (live_records (apply_all log no_maps))
        × (replay json (compact json file).1 ≡ replay json file)
        × ((id : NodeId) → load_node json id (compact json file).1 ≡ load_node json id file)
        × ((id : EdgeId) → load_edge json id (compact json file).1 ≡ load_edge json id file)
  unfolding load_node load_edge compact
  load_node-compact file log h =
      let live = apply_all log no_maps in
      let tidy = apply_all-IsTidy log no_maps h.records no_maps-IsTidy in
      let records =
        are_json_append json (node_records live.nodes) (edge_records live.edges)
          (node_records-AreJson live.nodes tidy.nodes_written)
          (edge_records-AreJson live.edges tidy.edges_written) in
      let compacted = some (log_bytes json (live_records live) records) in
      let held : Holds json compacted (live_records live) = record {
        records = records;
        bytes = refl;
      } in
      let same : replay json compacted ≡ ok live =
        replay-Holds json compacted (live_records live) held
        ∙ ap ok (apply_all-live_records live tidy) in
      rw (replay-Holds json file log h, record_lines-AreJson json (live_records live) records)
        (refl, held, same, λ id. rw same refl, λ id. rw same refl)
