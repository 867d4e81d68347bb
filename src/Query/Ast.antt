-- ===== src/Query/Ast.antt =====
-- src/query/ast.rs: commands, filters and comparisons.
use Prim.Native.Nat.{compare, Ordering}
use ad_graph_db.Base.{
  ℕ, List, [], ◌∷◌, Bool, true, false, not, ◌&&◌, Option, none, some, nat_eq, list_eq, ◌==◌, all,
  nat_beq, if◌then◌else◌,
}
use ad_graph_db.Base.Map
use ad_graph_db.Core.{
  NodeId, EdgeId, Text, Value, null, boolean, integer, float, text, Properties, Node, Edge, i64_key,
}
use ad_graph_db.Core.Float.{FloatOps}

pub data ComparisonOp : Type 0 where
  eq not_eq lt lt_eq gt gt_eq : ComparisonOp

pub data TraversalKind : Type 0 where
  bfs dfs : TraversalKind

pub record PropertyCondition : Type 0 where
  pub key : Text
  pub op : ComparisonOp
  pub value : Value

pub record WeightCondition : Type 0 where
  pub op : ComparisonOp
  pub value : ℕ

pub record NodeFilter : Type 0 where
  pub label : Option Text
  pub property_conditions : List PropertyCondition

pub record EdgeFilter : Type 0 where
  pub label : Option Text
  pub weight_condition : Option WeightCondition
  pub property_conditions : List PropertyCondition

pub data QueryCommand : Type 0 where
  match_nodes : NodeFilter → QueryCommand
  match_edges : EdgeFilter → QueryCommand
  get_node : NodeId → QueryCommand
  get_edge : EdgeId → QueryCommand
  traverse : TraversalKind → NodeId → QueryCommand
  shortest_path : NodeId → NodeId → QueryCommand
  count_nodes count_edges : QueryCommand

-- The derived `==` of operators.
abbrev pub op_rank : ComparisonOp → ℕ
op_rank eq = 0
op_rank not_eq = 1
op_rank lt = 2
op_rank lt_eq = 3
op_rank gt = 4
op_rank gt_eq = 5

abbrev pub op_beq : ComparisonOp → ComparisonOp → Bool
op_beq a b = nat_beq (op_rank a) (op_rank b)

-- `compare_ord`, from the ordering of its operands.
unfoldable pub compare_ord : ComparisonOp → Ordering → Bool
compare_ord eq Ordering.eq = true
compare_ord eq _ = false
compare_ord not_eq Ordering.eq = false
compare_ord not_eq _ = true
compare_ord lt Ordering.lt = true
compare_ord lt _ = false
compare_ord lt_eq Ordering.gt = false
compare_ord lt_eq _ = true
compare_ord gt Ordering.gt = true
compare_ord gt _ = false
compare_ord gt_eq Ordering.lt = false
compare_ord gt_eq _ = true

-- Strings are ordered by their bytes.
unfoldable pub text_cmp : Text → Text → Ordering
text_cmp [] [] = Ordering.eq
text_cmp [] (y ∷ ys) = Ordering.lt
text_cmp (x ∷ xs) [] = Ordering.gt
text_cmp (x ∷ xs) (y ∷ ys) =
    let rest = text_cmp xs ys in
    elim (compare x y) [
      | Ordering.lt ↦ Ordering.lt
      | Ordering.eq ↦ rest
      | Ordering.gt ↦ Ordering.gt
    ]

unfoldable pub bool_cmp : Bool → Bool → Ordering
bool_cmp false true = Ordering.lt
bool_cmp true false = Ordering.gt
bool_cmp _ _ = Ordering.eq

unfoldable pub i64_cmp : ℕ → ℕ → Ordering
i64_cmp a b = compare (i64_key a) (i64_key b)

module _ (f : FloatOps) where
  -- The derived `==` of values.
  unfoldable pub value_beq : Value → Value → Bool
  value_beq null null = true
  value_beq (boolean a) (boolean b) = if a then b else not b
  value_beq (integer a) (integer b) = a == b
  value_beq (float a) (float b) = f.eq a b
  value_beq (text a) (text b) = a == b
  value_beq _ _ = false

  unfoldable pub compare_f64 : ComparisonOp → ℕ → ℕ → Bool
  compare_f64 eq lhs rhs = f.near lhs rhs
  compare_f64 not_eq lhs rhs = f.far lhs rhs
  compare_f64 lt lhs rhs = f.lt lhs rhs
  compare_f64 lt_eq lhs rhs = f.le lhs rhs
  compare_f64 gt lhs rhs = f.lt rhs lhs
  compare_f64 gt_eq lhs rhs = f.le rhs lhs

  unfoldable pub compare_values : ComparisonOp → Value → Value → Bool
  compare_values op (text a) (text b) = compare_ord op (text_cmp a b)
  compare_values op (integer a) (integer b) = compare_ord op (i64_cmp a b)
  compare_values op (float a) (float b) = compare_f64 op a b
  compare_values op (integer a) (float b) = compare_f64 op (f.of_i64 a) b
  compare_values op (float a) (integer b) = compare_f64 op a (f.of_i64 b)
  compare_values op (boolean a) (boolean b) = compare_ord op (bool_cmp a b)
  compare_values op a b = op_beq op eq && value_beq a b

  unfoldable pub matches_properties : PropertyCondition → Properties → Bool
  matches_properties cond props = elim (Map.get cond.key props) [
    | none ↦ false
    | some actual ↦ compare_values cond.op actual cond.value
  ]

  -- `if let Some(expected) = label` and its early return.
  abbrev pub label_matches : Option Text → Text → Bool
  label_matches none l = true
  label_matches (some expected) l = l == expected

  unfoldable pub node_matches : NodeFilter → Node → Bool
  node_matches filter n =
      if label_matches filter.label n.label
      then all (λ cond. matches_properties cond n.properties) filter.property_conditions
      else false

  abbrev pub weight_matches : Option WeightCondition → ℕ → Bool
  weight_matches none actual = true
  weight_matches (some wc) actual = compare_f64 wc.op actual wc.value

  unfoldable pub edge_matches : EdgeFilter → Edge → Bool
  edge_matches filter e =
      if label_matches filter.label e.label
      then if weight_matches filter.weight_condition e.weight
        then all (λ cond. matches_properties cond e.properties) filter.property_conditions
        else false
      else false
