-- ===== src/Database/Reads.antt =====
-- The reading methods of `LayeredGraphDatabase` (src/database/layered.rs): the bulk helpers, the
-- statistics, the execution of queries.
use ad_graph_db.Base.{
  ℕ, List, [], ◌∷◌, map, Bool, false, Option, none, some, list_eq, nat_eq, retain,
}
use ad_graph_db.Base.Map
use ad_graph_db.Core.{NodeId, EdgeId, Text, Value, Node, Edge, Result, ok}
use ad_graph_db.Index.LabelIndex
use ad_graph_db.Index.PropertyIndex
use ad_graph_db.Query.Ast.{ComparisonOp, compare_values}
use ad_graph_db.Query.Planner.{DatabaseStats}
use ad_graph_db.Query.Context.{QueryResult}
use ad_graph_db.Database.Metrics.{add_u64}
use ad_graph_db.Database.State.{Adapters, Database, and_then}
use ad_graph_db.Database.Methods.{count, get_node, get_edge}

-- `if let Some(x) = found { xs.push(x) }`
abbrev pub push_found : {A : Type 0} → Option A → List A → List A
push_found none xs = xs
push_found (some x) xs = x ∷ xs

module _ {E C S : Type 0} (p : Adapters E C S) where
  abbrev Db : Type 0
  Db = Database E C S

  unfoldable pub load_nodes : List NodeId → Db → Result (List Node) × Db
  load_nodes [] d = (ok [], d)
  load_nodes (id ∷ ids) d =
      and_then (get_node p id d)
        (λ found d. and_then (load_nodes ids d) (λ rest d. (ok (push_found found rest), d)))

  unfoldable pub load_edges : List EdgeId → Db → Result (List Edge) × Db
  load_edges [] d = (ok [], d)
  load_edges (id ∷ ids) d =
      and_then (get_edge p id d)
        (λ found d. and_then (load_edges ids d) (λ rest d. (ok (push_found found rest), d)))

  unfoldable pub all_nodes : Db → Result (List Node) × Db
  all_nodes d = load_nodes (p.engine.all_node_ids d.engine) d

  unfoldable pub nodes_by_label : Text → Db → Result (List Node) × Db
  nodes_by_label label d = load_nodes (LabelIndex.get d.label_index label) d

  abbrev pub has_property : Text → ComparisonOp → Value → Node → Bool
  has_property field op value n = elim (Map.get field n.properties) [
    | none ↦ false
    | some v ↦ compare_values p.floats op v value
  ]

  unfoldable pub nodes_by_property : Text → ComparisonOp → Value → Db → Result (List Node) × Db
  nodes_by_property field op value d =
      elim (PropertyIndex.query p.floats field op value d.property_index) [
        | some ids ↦
            load_nodes ids
              (count p (λ m. record m { property_index_hits = add_u64 m.property_index_hits 1 }) d)
        | none ↦
            and_then
              (all_nodes
                (count p (λ m. record m { full_node_scans = add_u64 m.full_node_scans 1 }) d))
              (λ all d. (ok (retain (has_property field op value) all), d))
      ]

  unfoldable pub all_edges : Db → Result (List Edge) × Db
  all_edges d = load_edges (p.engine.all_edge_ids d.engine) d

  unfoldable pub build_stats : Db → DatabaseStats
  build_stats d = record {
    node_count = p.engine.node_count d.engine;
    edge_count = p.engine.edge_count d.engine;
    label_counts =
        map (λ l. (l, LabelIndex.label_count d.label_index l))
          (LabelIndex.all_labels d.label_index);
    indexed_node_fields = PropertyIndex.indexed_fields d.property_index;
  }

  -- `run` is the language's `execute` on the query's text.
  unfoldable pub execute_query : (Db → Result QueryResult × Db) → ℕ → Db → Result QueryResult × Db
  execute_query run elapsed_ns d =
      let (result, d') = run d in
      (
        result,
        count p
            (λ m. record m {
              queries_executed = add_u64 m.queries_executed 1;
              total_query_time_ns = add_u64 m.total_query_time_ns elapsed_ns;
            })
            d',
      )

  -- The methods of the executor's port that count.
  unfoldable pub get_all_nodes : Db → Result (List Node) × Db
  get_all_nodes d =
      all_nodes (count p (λ m. record m { full_node_scans = add_u64 m.full_node_scans 1 }) d)

  unfoldable pub get_nodes_by_label : Text → Db → Result (List Node) × Db
  get_nodes_by_label label d =
      nodes_by_label label
        (count p (λ m. record m { label_index_hits = add_u64 m.label_index_hits 1 }) d)

  unfoldable pub get_all_edges : Db → Result (List Edge) × Db
  get_all_edges d =
      all_edges (count p (λ m. record m { full_edge_scans = add_u64 m.full_edge_scans 1 }) d)
