-- ===== src/Language/Simple/Termination.antt =====
-- The loop over the conditions of a `WHERE` ends: each round takes a token.
use ad_graph_db.Base.{
  ℕ, ◌<◌, ◌≤◌, refl, List, [], ◌∷◌, ◌++◌, Option, none, some, length, nat_eq, list_eq, arith,
}
use ad_graph_db.Storage.Bytes.{length-drop-le}
use ad_graph_db.Core.{Text, SyntaxError, end_expecting, not_a_number}
use ad_graph_db.Query.Ast.{NodeFilter, EdgeFilter}
use ad_graph_db.Language.Chars.{codes, TextOps}
use ad_graph_db.Language.Parser.{next_or}
use ad_graph_db.Language.Parser.Shrinks.{
  LeavesAtMost, Shrinks, next_or-Shrinks, bind-Shrinks, give-Shrinks,
}
use ad_graph_db.Language.Parser.Runs.{Runs, repeat-Runs}
use ad_graph_db.Language.Simple.{
  skip_keyword, filter_chain, number_or, parse_op, parse_string_lit, parse_value_lit, parse_label,
  parse_property, parse_weight, apply_node_condition, apply_edge_condition,
}

parse_op-Shrinks : Shrinks parse_op
unfolding parse_op
parse_op-Shrinks n [] le = tt
parse_op-Shrinks n (t ∷ tokens) le = ground (arith, le)

parse_string_lit-Shrinks : Shrinks parse_string_lit
unfolding parse_string_lit
parse_string_lit-Shrinks n [] le = tt
parse_string_lit-Shrinks n (t ∷ tokens) le = ground (arith, le)

parse_value_lit-Shrinks : (ops : TextOps) → Shrinks (parse_value_lit ops)
unfolding parse_value_lit
parse_value_lit-Shrinks ops n [] le = tt
parse_value_lit-Shrinks ops n (t ∷ tokens) le = ground (arith, le)

number_or-Shrinks : {A : Type 0} (e : SyntaxError) (o : Option A) → Shrinks (number_or e o)
number_or-Shrinks e none n tokens le = tt
number_or-Shrinks e (some i) n tokens le = le

module _ (ops : TextOps) where
  parse_label-Shrinks : Shrinks (parse_label ops)
  unfolding parse_label
  parse_label-Shrinks =
      bind-Shrinks parse_op _ parse_op-Shrinks
        λ op n tokens le. ground (arith, parse_string_lit-Shrinks n tokens le)

  parse_property-Shrinks : (field : Text) → Shrinks (parse_property ops field)
  unfolding parse_property
  parse_property-Shrinks field = bind-Shrinks parse_op _ parse_op-Shrinks λ op.
      bind-Shrinks (parse_value_lit ops) _ (parse_value_lit-Shrinks ops) λ value n tokens le. le

  parse_weight-Shrinks : Shrinks (parse_weight ops)
  unfolding parse_weight
  parse_weight-Shrinks = bind-Shrinks parse_op _ parse_op-Shrinks λ op.
      bind-Shrinks (next_or (end_expecting [])) _ (next_or-Shrinks _) λ raw.
        bind-Shrinks (number_or _ _) _ (number_or-Shrinks (not_a_number raw) (ops.parse_f64 raw))
          λ value n tokens le. le

  -- One round of a loop takes a token.
  apply_node_condition-takes :
      (f : NodeFilter) (t : Text) (tokens : List Text)
      → LeavesAtMost (length tokens) (apply_node_condition ops f (t ∷ tokens))
  unfolding apply_node_condition
  apply_node_condition-takes f t tokens =
      let enough : length tokens ≤ length tokens = omega arith in
      let labelled =
        give-Shrinks (parse_label ops) (λ l. record f { label = some l }) parse_label-Shrinks
          (length tokens) tokens enough in
      let conditioned =
        give-Shrinks (parse_property ops t)
          (λ c. record f { property_conditions = f.property_conditions ++ c ∷ [] })
          (parse_property-Shrinks t) (length tokens) tokens enough in
      ground (arith, labelled, conditioned)

  apply_edge_condition-takes :
      (f : EdgeFilter) (t : Text) (tokens : List Text)
      → LeavesAtMost (length tokens) (apply_edge_condition ops f (t ∷ tokens))
  unfolding apply_edge_condition
  apply_edge_condition-takes f t tokens =
      let enough : length tokens ≤ length tokens = omega arith in
      let labelled =
        give-Shrinks (parse_label ops) (λ l. record f { label = some l }) parse_label-Shrinks
          (length tokens) tokens enough in
      let weighed =
        give-Shrinks (parse_weight ops) (λ w. record f { weight_condition = some w })
          parse_weight-Shrinks (length tokens) tokens enough in
      let conditioned =
        give-Shrinks (parse_property ops t)
          (λ c. record f { property_conditions = f.property_conditions ++ c ∷ [] })
          (parse_property-Shrinks t) (length tokens) tokens enough in
      ground (arith, labelled, weighed, conditioned)

skip_keyword-Shrinks : (kw : Text) → Shrinks (skip_keyword kw)
unfolding skip_keyword
skip_keyword-Shrinks kw n tokens le = ground (arith, le, length-drop-le 1 tokens)

-- Whatever was read before, the loop over the conditions of a node's `WHERE`, and of an edge's, makes a
-- finite run of rounds and ends, and on any fuel above the number of tokens that are left `filter_chain`
-- returns what that run ends in, be it the filter and the tokens behind it or an error: its fuel never
-- runs out.
pub filter_chain-Runs :
    (ops : TextOps) (n : ℕ) (tokens : List Text)
    → length tokens < n
    → ((f : NodeFilter)
        → Runs
            (apply_node_condition ops)
            (skip_keyword (codes "AND"))
            f
            tokens
            (filter_chain (apply_node_condition ops) n f tokens))
      × ((f : EdgeFilter)
          → Runs
              (apply_edge_condition ops)
              (skip_keyword (codes "AND"))
              f
              tokens
              (filter_chain (apply_edge_condition ops) n f tokens))
unfolding filter_chain apply_node_condition apply_edge_condition
filter_chain-Runs ops n tokens le = (
  λ f.
      repeat-Runs (apply_node_condition ops) _ n f tokens
        (record { at_end = λ g. refl; takes = apply_node_condition-takes ops })
        (skip_keyword-Shrinks (codes "AND")) le,
  λ f.
      repeat-Runs (apply_edge_condition ops) _ n f tokens
        (record { at_end = λ g. refl; takes = apply_edge_condition-takes ops })
        (skip_keyword-Shrinks (codes "AND")) le,
)
