-- ===== src/Transaction.antt =====
-- src/transaction/mod.rs: the buffer of staged operations. `TXN_COUNTER` is the number that `new` is
-- given; an atomic `fetch_add` hands each transaction another one.
pub mod Staging
use mathlib.Core.List.{foldl}
use ad_graph_db.Base.{ℕ, List, [], ◌∷◌, ◌++◌, Bool, ◌&&◌, length, is_empty}
use ad_graph_db.Core.{NodeId, EdgeId, Text, Properties, Node, Edge}
use ad_graph_db.Core.IdGenerator
use ad_graph_db.Core.IdGenerator.{IdGenerator}

pub data StagedOp : Type 0 where
  insert_node : Node → StagedOp
  insert_edge : Edge → StagedOp
  delete_node : NodeId → StagedOp
  delete_edge : EdgeId → StagedOp

pub record Transaction : Type 0 where
  pub txn_id : ℕ
  pub operations : List StagedOp
  pub id_gen : IdGenerator

abbrev pub new : ℕ → IdGenerator → Transaction
new counter snapshot = record { txn_id = counter; operations = []; id_gen = snapshot }

unfoldable pub stage_insert_node : Text → Properties → Transaction → NodeId × Transaction
stage_insert_node label properties t =
    let (id, g) = IdGenerator.next_node_id t.id_gen in
    let node : Node = record { id = id; label = label; properties = properties } in
    (id, record t { operations = t.operations ++ insert_node node ∷ []; id_gen = g })

unfoldable pub stage_insert_edge :
    NodeId → NodeId → Text → ℕ → Properties → Transaction → EdgeId × Transaction
stage_insert_edge source target label weight properties t =
    let (id, g) = IdGenerator.next_edge_id t.id_gen in
    let edge : Edge = record {
      id = id;
      source = source;
      target = target;
      label = label;
      weight = weight;
      properties = properties;
    } in
    (id, record t { operations = t.operations ++ insert_edge edge ∷ []; id_gen = g })

unfoldable pub stage_delete_node : NodeId → Transaction → Transaction
stage_delete_node id t = record t { operations = t.operations ++ delete_node id ∷ [] }

unfoldable pub stage_delete_edge : EdgeId → Transaction → Transaction
stage_delete_edge id t = record t { operations = t.operations ++ delete_edge id ∷ [] }

unfoldable pub operation_count : Transaction → ℕ
operation_count t = length t.operations

-- The body of the loop of `seed_generator_into`.
unfoldable pub seed_from_op : StagedOp → IdGenerator → IdGenerator
seed_from_op (insert_node n) g = IdGenerator.seed_from_node g n.id
seed_from_op (insert_edge e) g = IdGenerator.seed_from_edge g e.id
seed_from_op _ g = g

unfoldable pub seed_generator_into : Transaction → IdGenerator → IdGenerator
seed_generator_into t target = foldl (λ g op. seed_from_op op g) target t.operations

pub record CommitResult : Type 0 where
  pub inserted_node_ids : List NodeId
  pub inserted_edge_ids : List EdgeId
  pub deleted_node_ids : List NodeId
  pub deleted_edge_ids : List EdgeId

abbrev pub no_changes : CommitResult
no_changes = record {
  inserted_node_ids = [];
  inserted_edge_ids = [];
  deleted_node_ids = [];
  deleted_edge_ids = [];
}

unfoldable pub result_is_empty : CommitResult → Bool
result_is_empty r =
    is_empty r.inserted_node_ids
    && is_empty r.inserted_edge_ids
    && is_empty r.deleted_node_ids
    && is_empty r.deleted_edge_ids
