-- ===== src/Query/Planner/Plans.antt =====
-- Which plans the planner may choose, and from which condition (`plan_match_nodes` of
-- src/query/planner.rs).

use ad_graph_db.Base.{
  ◌≡◌, refl, List, [], ◌∷◌, Memᴰ, Memᴰ-cons, mem-retain, Bool, true, some, nat_eq, list_eq, ◌==◌,
  any, retain, leb, ltb, ◌⊎◌, inl, inr, Option-cases, Bool-cases, arith,
}
use ad_graph_db.Core.{Text}
use ad_graph_db.Core.Float.{FloatOps}
use ad_graph_db.Query.Ast.{ComparisonOp, PropertyCondition, NodeFilter, op_beq}
use ad_graph_db.Query.Planner.{
  DatabaseStats, label_index_scan, full_node_scan, stats_label_count, most_selective, min_condition,
  op_selectivity_rank, best_indexed_condition, scan_by_property, estimated_property_index_cost,
  label_cost, plan_by_label, plan_match_nodes,
}

pub op_beq-eq : (a b : ComparisonOp) → op_beq a b ≡ true → a ≡ b
op_beq-eq a b h = ground arith

most_selective-mem :
    (best : PropertyCondition) (cs : List PropertyCondition)
    → Memᴰ (most_selective best cs) (best ∷ cs)
unfolding most_selective
most_selective-mem best [] = Memᴰ.head refl
most_selective-mem best (c ∷ cs) =
    elim (Bool-cases (ltb (op_selectivity_rank c.op) (op_selectivity_rank best.op))) [
      | inl better ↦ rw better (Memᴰ.tail (most_selective-mem c cs))
      | inr worse ↦ rw worse (elim ((Memᴰ-cons _ best cs).0 (most_selective-mem best cs)) [
        | inl here ↦ Memᴰ.head here
        | inr later ↦ Memᴰ.tail (Memᴰ.tail later)
      ])
    ]

-- The condition that the planner picks is one of the filter's.
pub best_indexed_condition-mem :
    (conds : List PropertyCondition) (s : DatabaseStats) (best : PropertyCondition)
    → best_indexed_condition conds s ≡ some best
    → Memᴰ best conds
unfolding best_indexed_condition
best_indexed_condition-mem conds s best h =
    ((mem-retain indexed best conds).0 (picked (retain indexed conds) h)).0
  where
    indexed : PropertyCondition → Bool
    indexed c = any (λ field. field == c.key) s.indexed_node_fields

    picked : (cs : List PropertyCondition) → min_condition cs ≡ some best → Memᴰ best cs
    picked [] e = absurd (ground arith)
    picked (c ∷ cs) e =
        let e' : most_selective c cs ≡ best = ground arith in rw e' at (most_selective-mem c cs)

-- The plans that the planner chooses between.
pub plan_by_label-cases :
    (filter : NodeFilter) (s : DatabaseStats)
    → (plan_by_label filter s ≡ full_node_scan filter)
      ⊎ ((l : Text) × (filter.label ≡ some l)
          × (plan_by_label filter s ≡ label_index_scan l filter))
unfolding plan_by_label
plan_by_label-cases filter s = elim (Option-cases filter.label) [
  | inl e ↦ inl (ground arith)
  | inr (l, e) ↦ elim (Bool-cases (ltb (stats_label_count s l) s.node_count)) [
    | inl few ↦ inr (l, e, ground arith)
    | inr many ↦ inl (ground arith)
  ]
]

pub plan_match_nodes-cases :
    (f : FloatOps) (filter : NodeFilter) (s : DatabaseStats)
    → (plan_match_nodes f filter s ≡ plan_by_label filter s)
      ⊎ ((best : PropertyCondition) × (best_indexed_condition filter.property_conditions s
            ≡ some best)
          × (plan_match_nodes f filter s ≡ scan_by_property f filter best))
unfolding plan_match_nodes
plan_match_nodes-cases f filter s =
    elim (Option-cases (best_indexed_condition filter.property_conditions s)) [
      | inl e ↦ inl (ground arith)
      | inr (best, e) ↦
          elim (Bool-cases (leb (estimated_property_index_cost f s) (label_cost filter s))) [
            | inr dear ↦ inl (ground arith)
            | inl cheap ↦ elim (Bool-cases (ltb (estimated_property_index_cost f s) s.node_count)) [
              | inl wins ↦ inr (best, e, ground arith)
              | inr loses ↦ inl (ground arith)
            ]
          ]
    ]
