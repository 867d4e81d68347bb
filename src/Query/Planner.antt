-- ===== src/Query/Planner.antt =====
-- src/query/planner.rs: from a command to the plan that the executor runs.
pub mod Plans
pub mod Remaining
use ad_graph_db.Base.{
  ℕ, ◌+◌, ◌/◌, List, [], ◌∷◌, Bool, not, ◌||◌, Option, none, some, get_or, nat_eq, list_eq, ◌==◌,
  any, leb, ltb, retain, if◌then◌else◌,
}
use ad_graph_db.Base.Map
use ad_graph_db.Core.{NodeId, EdgeId, Text, Value}
use ad_graph_db.Core.Float.{FloatOps}
use ad_graph_db.Query.Ast.{
  ComparisonOp, eq, not_eq, lt, lt_eq, gt, gt_eq, TraversalKind, PropertyCondition, NodeFilter,
  EdgeFilter, QueryCommand, match_nodes, match_edges, op_beq, value_beq,
}

pub record DatabaseStats : Type 0 where
  pub node_count : ℕ
  pub edge_count : ℕ
  pub label_counts : List (Text × ℕ)
  pub indexed_node_fields : List Text

abbrev pub empty_stats : DatabaseStats
empty_stats = record { node_count = 0; edge_count = 0; label_counts = []; indexed_node_fields = [] }

unfoldable pub stats_label_count : DatabaseStats → Text → ℕ
stats_label_count s label = get_or (Map.get label s.label_counts) 0

pub data ExecutionPlan : Type 0 where
  property_index_scan : Text → ComparisonOp → Value → NodeFilter → ExecutionPlan
  label_index_scan : Text → NodeFilter → ExecutionPlan
  full_node_scan : NodeFilter → ExecutionPlan
  full_edge_scan : EdgeFilter → ExecutionPlan
  node_lookup : NodeId → ExecutionPlan
  edge_lookup : EdgeId → ExecutionPlan
  traverse : TraversalKind → NodeId → ExecutionPlan
  shortest_path : NodeId → NodeId → ExecutionPlan
  count_nodes count_edges : ExecutionPlan

-- Lower is more selective.
abbrev pub op_selectivity_rank : ComparisonOp → ℕ
op_selectivity_rank eq = 0
op_selectivity_rank not_eq = 4
op_selectivity_rank lt = 2
op_selectivity_rank lt_eq = 2
op_selectivity_rank gt = 2
op_selectivity_rank gt_eq = 2

-- `min_by_key`: the first condition of least rank.
unfoldable pub most_selective : PropertyCondition → List PropertyCondition → PropertyCondition
most_selective best [] = best
most_selective best (c ∷ cs) =
    most_selective
      (if ltb (op_selectivity_rank c.op) (op_selectivity_rank best.op) then c else best) cs

abbrev pub min_condition : List PropertyCondition → Option PropertyCondition
min_condition [] = none
min_condition (c ∷ cs) = some (most_selective c cs)

unfoldable pub best_indexed_condition :
    List PropertyCondition → DatabaseStats → Option PropertyCondition
best_indexed_condition conditions s =
    min_condition (retain (λ c. any (λ field. field == c.key) s.indexed_node_fields) conditions)

-- Options B and C of `plan_match_nodes`.
unfoldable pub plan_by_label : NodeFilter → DatabaseStats → ExecutionPlan
plan_by_label filter s = elim filter.label [
  | none ↦ full_node_scan filter
  | some label ↦
      if ltb (stats_label_count s label) s.node_count
      then label_index_scan label filter
      else full_node_scan filter
]

abbrev pub label_cost : NodeFilter → DatabaseStats → ℕ
label_cost filter s = elim filter.label [
  | none ↦ s.node_count
  | some label ↦ stats_label_count s label
]

module _ (f : FloatOps) where
  unfoldable pub estimated_property_index_cost : DatabaseStats → ℕ
  estimated_property_index_cost s =
      if s.node_count == 0 then 0 else f.log2_ceil s.node_count + s.node_count / 10

  -- The conditions other than the one that the index serves.
  abbrev pub differs_from : PropertyCondition → PropertyCondition → Bool
  differs_from best c =
      not (c.key == best.key) || (not (op_beq c.op best.op) || not (value_beq f c.value best.value))

  abbrev pub remaining_filter : NodeFilter → PropertyCondition → NodeFilter
  remaining_filter filter best = record filter {
    property_conditions = retain (differs_from best) filter.property_conditions;
  }

  abbrev pub scan_by_property : NodeFilter → PropertyCondition → ExecutionPlan
  scan_by_property filter best =
      property_index_scan best.key best.op best.value (remaining_filter filter best)

  unfoldable pub plan_match_nodes : NodeFilter → DatabaseStats → ExecutionPlan
  plan_match_nodes filter s = elim (best_indexed_condition filter.property_conditions s) [
    | none ↦ plan_by_label filter s
    | some best ↦
        if leb (estimated_property_index_cost s) (label_cost filter s)
        then if ltb (estimated_property_index_cost s) s.node_count
          then scan_by_property filter best
          else plan_by_label filter s
        else plan_by_label filter s
  ]

  unfoldable pub plan : QueryCommand → DatabaseStats → ExecutionPlan
  plan (match_nodes filter) s = plan_match_nodes filter s
  plan (match_edges filter) s = full_edge_scan filter
  plan (QueryCommand.get_node id) s = node_lookup id
  plan (QueryCommand.get_edge id) s = edge_lookup id
  plan (QueryCommand.traverse kind start) s = traverse kind start
  plan (QueryCommand.shortest_path start goal) s = shortest_path start goal
  plan QueryCommand.count_nodes s = count_nodes
  plan QueryCommand.count_edges s = count_edges
