-- ===== src/Database/Methods.antt =====
-- The methods of `LayeredGraphDatabase` (src/database/layered.rs), without the transactions.
--
-- The labels of an edge's and a node's insertion are given as strings; `execute_query` is given what
-- the language's execution does and the nanoseconds that the clock measures. Messages on standard
-- error are left out.
use mathlib.Core.List.{foldl}
use ad_graph_db.Base.{
  ℕ, List, [], ◌∷◌, ◌++◌, map, Bool, false, not, Option, none, some, list_eq, nat_eq, leb, retain,
  is_empty, if◌then◌else◌,
}
use ad_graph_db.Core.{NodeId, EdgeId, Text, Properties, Node, Edge, node_not_found, Result, ok, err}
use ad_graph_db.Core.IdGenerator
use ad_graph_db.Index.LabelIndex
use ad_graph_db.Index.PropertyIndex
use ad_graph_db.Index.PropertyIndex.{PropertyIndex}
use ad_graph_db.Database.Config.{DatabaseConfig, should_index_field, indexes_all_fields}
use ad_graph_db.Database.Metrics
use ad_graph_db.Database.Metrics.{DatabaseMetrics, add_u64}
use ad_graph_db.Database.State.{Adapters, Database, and_then, on_storage}

module _ {E C S : Type 0} (p : Adapters E C S) where
  abbrev Db : Type 0
  Db = Database E C S

  abbrev pub count : (DatabaseMetrics → DatabaseMetrics) → Db → Db
  count change d = record d { metrics = change d.metrics }

  -- The entries that the configuration indexes, put into the property index.
  unfoldable pub index_properties :
      DatabaseConfig → NodeId → Properties → PropertyIndex → PropertyIndex
  index_properties config id props idx =
      let filtered = retain (λ e. should_index_field config e.0) props in
      if indexes_all_fields config
      then PropertyIndex.insert_node p.floats id props idx
      else if is_empty filtered
      then idx
      else PropertyIndex.insert_node p.floats id filtered idx

  unfoldable pub load_node_step : Db → Node → Db
  load_node_step d n = record d {
    id_generator = IdGenerator.seed_from_node d.id_generator n.id;
    engine = p.engine.insert_node n.id d.engine;
    label_index = LabelIndex.insert n.id n.label d.label_index;
    property_index = index_properties d.config n.id n.properties d.property_index;
  }

  unfoldable pub load_edge_step : Db → Edge → Db
  load_edge_step d e = record d {
    id_generator = IdGenerator.seed_from_edge d.id_generator e.id;
    engine = p.engine.insert_edge e.id e.source e.target e.weight d.engine;
  }

  -- The second loop, behind the first.
  abbrev load_edges : Result (List Edge) → Db → Result Db
  load_edges (err e) d = err e
  load_edges (ok es) d = ok (foldl load_edge_step d es)

  abbrev load_all : Result (List Node) → Db → Result Db
  load_all (err e) d = err e
  load_all (ok ns) d = load_edges (p.storage.load_all_edges d.storage) (foldl load_node_step d ns)

  unfoldable pub open_with_config : S → C → E → DatabaseConfig → Result Db
  open_with_config storage cache engine config =
      load_all (p.storage.load_all_nodes storage) (record {
        engine = engine;
        cache = cache;
        storage = storage;
        label_index = LabelIndex.new;
        property_index = [];
        id_generator = IdGenerator.new;
        config = config;
        metrics = Metrics.new;
        writes_since_compact = 0;
      })

  unfoldable pub compact : Db → Result {0} Unit × Db
  compact d = and_then (on_storage p.storage.compact d) (λ _ d. (
    ok tt,
    record d {
      cache = p.cache.clear d.cache;
      metrics = record d.metrics { compactions = add_u64 d.metrics.compactions 1 };
      writes_since_compact = 0;
    },
  ))

  abbrev pub compact_due : Option ℕ → ℕ → Bool
  compact_due none writes = false
  compact_due (some threshold) writes = leb threshold writes

  -- The auto-compaction trigger; a failure is not passed on.
  unfoldable pub on_write : Db → Db
  on_write d =
      let counted = record d { writes_since_compact = add_u64 d.writes_since_compact 1 } in
      if compact_due d.config.auto_compact_after_writes counted.writes_since_compact
      then (compact counted).1
      else counted

  -- What a save of a new node changes in memory.
  unfoldable pub node_saved : Node → Db → Db
  node_saved n d = record d {
    cache = p.cache.put_node n d.cache;
    engine = p.engine.insert_node n.id d.engine;
    label_index = LabelIndex.insert n.id n.label d.label_index;
    property_index = index_properties d.config n.id n.properties d.property_index;
    metrics = record d.metrics { nodes_inserted = add_u64 d.metrics.nodes_inserted 1 };
  }

  unfoldable pub insert_node : Text → Properties → Db → Result NodeId × Db
  insert_node label properties d =
      let (id, ids) = IdGenerator.next_node_id d.id_generator in
      let n : Node = record { id = id; label = label; properties = properties } in
      and_then (on_storage (p.storage.save_node n) (record d { id_generator = ids }))
        (λ _ d. (ok id, on_write (node_saved n d)))

  -- What the storage answers, kept in the cache.
  abbrev pub fetched : Result (Option Node) → Db → Result (Option Node) × Db
  fetched (err e) d = (err e, d)
  fetched (ok none) d = (ok none, d)
  fetched (ok (some n)) d = (ok (some n), record d { cache = p.cache.put_node n d.cache })

  -- What the cache answers, or the storage.
  abbrev pub looked_up : NodeId → Option Node → Db → Result (Option Node) × Db
  looked_up id (some n) d =
      (ok (some n), count (λ m. record m { cache_node_hits = add_u64 m.cache_node_hits 1 }) d)
  looked_up id none d =
      fetched (p.storage.load_node id d.storage)
        (count (λ m. record m { cache_node_misses = add_u64 m.cache_node_misses 1 }) d)

  unfoldable pub get_node : NodeId → Db → Result (Option Node) × Db
  get_node id d =
      let (found, cache) = p.cache.get_node id d.cache in
      looked_up id found (record d { cache = cache })

  abbrev pub fetched_edge : Result (Option Edge) → Db → Result (Option Edge) × Db
  fetched_edge (err e) d = (err e, d)
  fetched_edge (ok none) d = (ok none, d)
  fetched_edge (ok (some x)) d = (ok (some x), record d { cache = p.cache.put_edge x d.cache })

  abbrev pub looked_up_edge : EdgeId → Option Edge → Db → Result (Option Edge) × Db
  looked_up_edge id (some x) d =
      (ok (some x), count (λ m. record m { cache_edge_hits = add_u64 m.cache_edge_hits 1 }) d)
  looked_up_edge id none d =
      fetched_edge (p.storage.load_edge id d.storage)
        (count (λ m. record m { cache_edge_misses = add_u64 m.cache_edge_misses 1 }) d)

  unfoldable pub get_edge : EdgeId → Db → Result (Option Edge) × Db
  get_edge id d =
      let (found, cache) = p.cache.get_edge id d.cache in
      looked_up_edge id found (record d { cache = cache })

  -- The loop over the incident edges.
  unfoldable pub delete_incident : List EdgeId → Db → Result {0} Unit × Db
  delete_incident [] d = (ok tt, d)
  delete_incident (e ∷ es) d =
      and_then (on_storage (p.storage.delete_edge e) d)
        (λ _ d. delete_incident es (record d { cache = p.cache.invalidate_edge e d.cache }))

  -- The node's entries leave the indexes.
  abbrev pub unindexed : NodeId → Option Node → Db → Db
  unindexed id none d = d
  unindexed id (some n) d = record d {
    label_index = LabelIndex.remove id n.label d.label_index;
    property_index = PropertyIndex.remove_node p.floats id n.properties d.property_index;
  }

  abbrev pub node_deleted : NodeId → Db → Db
  node_deleted id d = record d {
    cache = p.cache.invalidate_node id d.cache;
    engine = p.engine.remove_node id d.engine;
    metrics = record d.metrics { nodes_deleted = add_u64 d.metrics.nodes_deleted 1 };
  }

  unfoldable pub delete_node : NodeId → Db → Result {0} Unit × Db
  delete_node id d =
      let incident =
        map (λ n. n.edge_id)
          (p.engine.neighbors_outgoing d.engine id ++ p.engine.neighbors_incoming d.engine id) in
      and_then (delete_incident incident d) (λ _ d. and_then (get_node id d) (λ found d.
        and_then (on_storage (p.storage.delete_node id) (unindexed id found d))
          (λ _ d. (ok tt, on_write (node_deleted id d)))))

  unfoldable pub edge_saved : Edge → Db → Db
  edge_saved e d = record d {
    cache = p.cache.put_edge e d.cache;
    engine = p.engine.insert_edge e.id e.source e.target e.weight d.engine;
    metrics = record d.metrics { edges_inserted = add_u64 d.metrics.edges_inserted 1 };
  }

  unfoldable pub insert_edge : NodeId → NodeId → Text → ℕ → Properties → Db → Result EdgeId × Db
  insert_edge source target label weight properties d =
      let (id, ids) = IdGenerator.next_edge_id d.id_generator in
      let e : Edge = record {
        id = id;
        source = source;
        target = target;
        label = label;
        weight = weight;
        properties = properties;
      } in
      if not (p.engine.contains_node d.engine source)
      then (err (node_not_found source), d)
      else if not (p.engine.contains_node d.engine target)
      then (err (node_not_found target), d)
      else and_then (on_storage (p.storage.save_edge e) (record d { id_generator = ids }))
          (λ _ d. (ok id, on_write (edge_saved e d)))

  abbrev pub edge_deleted : EdgeId → Db → Db
  edge_deleted id d = record d {
    cache = p.cache.invalidate_edge id d.cache;
    engine = p.engine.remove_edge id d.engine;
    metrics = record d.metrics { edges_deleted = add_u64 d.metrics.edges_deleted 1 };
  }

  unfoldable pub delete_edge : EdgeId → Db → Result {0} Unit × Db
  delete_edge id d =
      and_then (on_storage (p.storage.delete_edge id) d)
        (λ _ d. (ok tt, on_write (edge_deleted id d)))
