-- ===== src/Query/Executor/Sound.antt =====
-- Whatever plan is chosen, a node query returns exactly the nodes that match its filter.

use ad_graph_db.Base.{
  ◌≡◌, List, Memᴰ, mem-retain, true, some, nat_eq, list_eq, list_beq_iff, retain, ◌↔◌, inl, inr,
  arith,
}
use ad_graph_db.Core.{Text, Node, Result, ok}
use ad_graph_db.Core.Float.{FloatOps, IsIeee}
use ad_graph_db.Query.Ast.{
  PropertyCondition, NodeFilter, match_nodes, matches_properties, node_matches,
}
use ad_graph_db.Query.Planner.{
  DatabaseStats, property_index_scan, label_index_scan, full_node_scan, remaining_filter,
  plan_by_label, plan_match_nodes, plan,
}
use ad_graph_db.Query.Context.{DatabaseContext, QueryResult, nodes}
use ad_graph_db.Query.Executor.{execute_plan, execute}
use ad_graph_db.Query.Planner.Plans.{
  best_indexed_condition-mem, plan_by_label-cases, plan_match_nodes-cases,
}
use ad_graph_db.Query.Planner.Remaining.{remaining_iff}

-- What the executor relies on for one filter in one state: the scan lists the content, and the index methods
-- return what fits of it, for the label and the conditions of this filter.
pub record ContextLaws (f : FloatOps) {D : Type 0} (ctx : DatabaseContext D) (filter : NodeFilter)
    (d : D) : Type 0 where
  pub content : List Node
  pub all_nodes : (d' : D) × (ctx.get_all_nodes d ≡ (ok content, d'))
  pub by_label :
      (l : Text)
      → filter.label ≡ some l
      → (ns : List Node) × (d' : D) × (ctx.get_nodes_by_label l d ≡ (ok ns, d'))
        × ((n : Node) → Memᴰ n ns ↔ (Memᴰ n content × (n.label ≡ l)))
  pub by_property :
      (c : PropertyCondition)
      → Memᴰ c filter.property_conditions
      → (ns : List Node) × (d' : D) × (ctx.get_nodes_by_property c.key c.op c.value d ≡ (ok ns, d'))
        × ((n : Node) → Memᴰ n ns ↔ (Memᴰ n content × (matches_properties f c n.properties ≡ true)))

module _ (f : FloatOps) (ieee : IsIeee f) where
  module _ {D : Type 0} (ctx : DatabaseContext D) (filter : NodeFilter) (d : D)
      (laws : ContextLaws f ctx filter d) where
    -- The plan returns exactly the matching nodes of the database.
    abbrev pub Answers : Result QueryResult × D → Type 0
    Answers r =
        (ns : List Node) × (d' : D) × (r ≡ (ok (nodes ns), d'))
        × ((n : Node) → Memᴰ n ns ↔ (Memᴰ n laws.content × (node_matches f filter n ≡ true)))

    full_scan-Answers : Answers (execute_plan f ctx (full_node_scan filter) d)
    unfolding execute_plan
    full_scan-Answers =
        let (d', found) = laws.all_nodes in
        (
          retain (node_matches f filter) laws.content,
          d',
          rw found,
          λ n. mem-retain (node_matches f filter) n laws.content,
        )

    label_scan-Answers :
        (l : Text)
        → filter.label ≡ some l
        → Answers (execute_plan f ctx (label_index_scan l filter) d)
    unfolding execute_plan node_matches
    label_scan-Answers l e =
        let (ns, d', found, fits) = laws.by_label l e in
        (
          retain (node_matches f filter) ns,
          d',
          rw (e, found),
          λ n.
              ground
                (arith, mem-retain (node_matches f filter) n ns, fits n, list_beq_iff n.label l),
        )

    property_scan-Answers :
        (best : PropertyCondition)
        → Memᴰ best filter.property_conditions
        → Answers (
            execute_plan f ctx
              (property_index_scan best.key best.op best.value (remaining_filter f filter best))
              d)
    unfolding execute_plan
    property_scan-Answers best m =
        let (ns, d', found, fits) = laws.by_property best m in
        let rest = remaining_filter f filter best in
        (
          retain (node_matches f rest) ns,
          d',
          rw found,
          λ n. ground (
            arith,
            mem-retain (node_matches f rest) n ns,
            fits n,
            remaining_iff f ieee filter best n m,
          ),
        )

    plan_by_label-Answers :
        (s : DatabaseStats) → Answers (execute_plan f ctx (plan_by_label filter s) d)
    plan_by_label-Answers s = elim (plan_by_label-cases filter s) [
      | inl e ↦ rw e full_scan-Answers
      | inr (l, labelled, e) ↦ rw e (label_scan-Answers l labelled)
    ]

    plan_match_nodes-Answers :
        (s : DatabaseStats) → Answers (execute_plan f ctx (plan_match_nodes f filter s) d)
    plan_match_nodes-Answers s = elim (plan_match_nodes-cases f filter s) [
      | inl e ↦ rw e (plan_by_label-Answers s)
      | inr (best, picked, e) ↦ rw e (
          property_scan-Answers best
            (best_indexed_condition-mem filter.property_conditions s best picked))
    ]

    -- In a state in which the scan lists the content, and the index methods return what fits of it for
    -- the filter's label and conditions, a node query succeeds and returns exactly the nodes of the
    -- content that match its filter, whichever plan the statistics select; equal floating-point operands
    -- are taken to compare alike.
    pub execute-match_nodes : Answers (execute f ctx (match_nodes filter) d)
    unfolding execute plan
    execute-match_nodes = plan_match_nodes-Answers (ctx.stats d)
