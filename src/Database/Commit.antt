-- ===== src/Database/Commit.antt =====
-- The transactions of `LayeredGraphDatabase` (src/database/layered.rs).
use ad_graph_db.Base.{ℕ, List, [], ◌∷◌, ◌++◌, not, if◌then◌else◌}
use ad_graph_db.Core.{Node, Edge, node_not_found, Result, ok, err}
use ad_graph_db.Core.IdGenerator
use ad_graph_db.Index.LabelIndex
use ad_graph_db.Index.PropertyIndex
use ad_graph_db.Transaction
use ad_graph_db.Transaction.{
  StagedOp, insert_node, insert_edge, delete_node, delete_edge, Transaction, CommitResult,
  no_changes, seed_generator_into,
}
use ad_graph_db.Database.Metrics.{add_u64}
use ad_graph_db.Database.State.{Adapters, Database, and_then, on_storage}
use ad_graph_db.Database.Methods
use ad_graph_db.Database.Methods.{count, on_write, edge_saved}

module _ {E C S : Type 0} (p : Adapters E C S) where
  abbrev Db : Type 0
  Db = Database E C S

  unfoldable pub begin_transaction : ℕ → Db → Transaction
  begin_transaction counter d = Transaction.new counter d.id_generator

  -- Unlike an insertion outside a transaction, this one indexes every property.
  unfoldable pub node_committed : Node → Db → Db
  node_committed n d = record d {
    cache = p.cache.put_node n d.cache;
    engine = p.engine.insert_node n.id d.engine;
    label_index = LabelIndex.insert n.id n.label d.label_index;
    property_index = PropertyIndex.insert_node p.floats n.id n.properties d.property_index;
    id_generator = IdGenerator.seed_from_node d.id_generator n.id;
    metrics = record d.metrics { nodes_inserted = add_u64 d.metrics.nodes_inserted 1 };
  }

  unfoldable pub edge_committed : Edge → Db → Db
  edge_committed e d = record (edge_saved p e d) {
    id_generator = IdGenerator.seed_from_edge d.id_generator e.id;
  }

  -- The early return: the rollback's own failure is dropped.
  abbrev pub give_up : ℕ → ℕ → Db → Result CommitResult × Db
  give_up txn_id missing d =
      (err (node_not_found missing), (on_storage (p.storage.rollback_wal_transaction txn_id) d).1)

  -- One round of the loop over the staged operations.
  unfoldable pub commit_op : ℕ → StagedOp → CommitResult → Db → Result CommitResult × Db
  commit_op txn_id (insert_node n) r d = and_then (on_storage (p.storage.save_node n) d) (λ _ d.
      (ok (record r { inserted_node_ids = r.inserted_node_ids ++ n.id ∷ [] }), node_committed n d))
  commit_op txn_id (insert_edge e) r d =
      if not (p.engine.contains_node d.engine e.source)
      then give_up txn_id e.source d
      else if not (p.engine.contains_node d.engine e.target)
      then give_up txn_id e.target d
      else and_then (on_storage (p.storage.save_edge e) d) (λ _ d. (
        ok (record r { inserted_edge_ids = r.inserted_edge_ids ++ e.id ∷ [] }),
        edge_committed e d,
      ))
  commit_op txn_id (delete_node id) r d =
      and_then (Methods.delete_node p id d)
        (λ _ d. (ok (record r { deleted_node_ids = r.deleted_node_ids ++ id ∷ [] }), d))
  commit_op txn_id (delete_edge id) r d =
      and_then (Methods.delete_edge p id d)
        (λ _ d. (ok (record r { deleted_edge_ids = r.deleted_edge_ids ++ id ∷ [] }), d))

  unfoldable pub commit_ops : ℕ → List StagedOp → CommitResult → Db → Result CommitResult × Db
  commit_ops txn_id [] r d = (ok r, d)
  commit_ops txn_id (op ∷ ops) r d =
      and_then (commit_op txn_id op r d) (λ r d. commit_ops txn_id ops r d)

  unfoldable pub commit_transaction : Transaction → Db → Result CommitResult × Db
  commit_transaction t d =
      and_then (on_storage (p.storage.begin_wal_transaction t.txn_id) d) (λ _ d.
        and_then (commit_ops t.txn_id t.operations no_changes d) (λ r d.
          and_then (on_storage (p.storage.commit_wal_transaction t.txn_id) d) (λ _ d. (
            ok r,
            on_write p (
                count p
                  (λ m. record m { transactions_committed = add_u64 m.transactions_committed 1 })
                  d),
          ))))

  unfoldable pub rollback_transaction : Transaction → Db → Db
  rollback_transaction t d = record d {
    id_generator = seed_generator_into t d.id_generator;
    metrics = record d.metrics {
      transactions_rolled_back = add_u64 d.metrics.transactions_rolled_back 1;
    };
  }
