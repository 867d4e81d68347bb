-- ===== src/Language/Cypher/Termination.antt =====
-- The loop over the conditions of a `WHERE` of CypherLite ends: each round takes a token.
use ad_graph_db.Base.{
  ℕ, ◌<◌, refl, List, [], ◌∷◌, ◌++◌, Option, none, some, length, nat_eq, Bool-cases, inl, inr,
  arith,
}
use ad_graph_db.Storage.Bytes.{length-drop-le}
use ad_graph_db.Core.{Text, unexpected_token}
use ad_graph_db.Core.Float.{FloatOps}
use ad_graph_db.Query.Ast.{ComparisonOp, NodeFilter, EdgeFilter, PropertyCondition}
use ad_graph_db.Language.Chars.{codes, eq_ignore_ascii_case}
use ad_graph_db.Language.Parser.{Parser, ◌>>=◌, give, next_or, repeat}
use ad_graph_db.Language.Parser.Shrinks.{
  LeavesAtMost, Shrinks, next_or-Shrinks, bind-Shrinks, give-Shrinks,
}
use ad_graph_db.Language.Parser.Runs.{Runs, repeat-Runs}
use ad_graph_db.Language.Cypher.Lexer.{
  Token, ident, string_lit, int_lit, float_lit, bool_lit, dot, eq_sign, not_eq_sign, lt_sign,
  lt_eq_sign, gt_sign, gt_eq_sign,
}
use ad_graph_db.Language.Cypher.{
  skip_keyword, expect_token, op_of, parse_op, value_of, parse_value_lit, name_of, consume_ident,
  consume_ident_or_any, parse_condition, weight_of, set_weight, apply_node_condition,
  apply_edge_condition,
}

op_of-Shrinks : (t : Token) → Shrinks (op_of t)
op_of-Shrinks eq_sign n tokens le = le
op_of-Shrinks not_eq_sign n tokens le = le
op_of-Shrinks lt_sign n tokens le = le
op_of-Shrinks lt_eq_sign n tokens le = le
op_of-Shrinks gt_sign n tokens le = le
op_of-Shrinks gt_eq_sign n tokens le = le
op_of-Shrinks _ n tokens le = tt

value_of-Shrinks : (t : Token) → Shrinks (value_of t)
value_of-Shrinks (string_lit s) n tokens le = le
value_of-Shrinks (int_lit i) n tokens le = le
value_of-Shrinks (float_lit x) n tokens le = le
value_of-Shrinks (bool_lit b) n tokens le = le
value_of-Shrinks _ n tokens le = tt

name_of-Shrinks : (t : Token) → Shrinks (name_of t)
name_of-Shrinks (ident s) n tokens le = le
name_of-Shrinks _ n tokens le = tt

expect_token-Shrinks : (wanted : Token) → Shrinks (expect_token wanted)
unfolding expect_token
expect_token-Shrinks wanted n [] le = tt
expect_token-Shrinks wanted n (t ∷ tokens) le = ground (arith, le)

skip_keyword-Shrinks : (kw : Text) → Shrinks (skip_keyword kw)
unfolding skip_keyword
skip_keyword-Shrinks kw n tokens le = ground (arith, le, length-drop-le 1 tokens)

-- Behind the variable.
abbrev condition_rest : Parser Token PropertyCondition
condition_rest = do
  _ ← expect_token dot
  field ← consume_ident
  op ← parse_op
  value ← parse_value_lit
  give (record { key = field; op = op; value = value })

condition_rest-Shrinks : Shrinks condition_rest
unfolding consume_ident parse_op parse_value_lit
condition_rest-Shrinks = bind-Shrinks (expect_token dot) _ (expect_token-Shrinks dot) λ _.
    bind-Shrinks consume_ident _
      (bind-Shrinks (next_or unexpected_token) name_of (next_or-Shrinks _) name_of-Shrinks)
      λ field.
        bind-Shrinks parse_op _
          (bind-Shrinks (next_or unexpected_token) op_of (next_or-Shrinks _) op_of-Shrinks)
          λ op.
            give-Shrinks parse_value_lit (λ value. record { key = field; op = op; value = value })
              (bind-Shrinks (next_or unexpected_token) value_of (next_or-Shrinks _)
                value_of-Shrinks)

apply_node_condition-takes :
    (f : NodeFilter) (t : Token) (tokens : List Token)
    → LeavesAtMost (length tokens) (apply_node_condition f (t ∷ tokens))
unfolding apply_node_condition parse_condition consume_ident_or_any
apply_node_condition-takes f t tokens =
    give-Shrinks condition_rest
      (λ c. record f { property_conditions = f.property_conditions ++ c ∷ [] })
      condition_rest-Shrinks (length tokens) tokens (omega arith)

set_weight-Shrinks :
    (f : EdgeFilter) (op : ComparisonOp) (w : Option ℕ) → Shrinks (set_weight f op w)
set_weight-Shrinks f op none n tokens le = tt
set_weight-Shrinks f op (some w) n tokens le = le

apply_edge_condition-takes :
    (ieee : FloatOps) (f : EdgeFilter) (t : Token) (tokens : List Token)
    → LeavesAtMost (length tokens) (apply_edge_condition ieee f (t ∷ tokens))
unfolding apply_edge_condition parse_condition consume_ident_or_any
apply_edge_condition-takes ieee f t tokens =
    bind-Shrinks condition_rest _ condition_rest-Shrinks
      (λ c n rest le. elim (Bool-cases (eq_ignore_ascii_case c.key (codes "weight"))) [
        | inl weight ↦ rw weight (set_weight-Shrinks f c.op (weight_of ieee c.value) n rest le)
        | inr other ↦ rw other le
      ])
      (length tokens) tokens (omega arith)

-- Whatever was read before, the loop over the conditions of a node's `WHERE` in CypherLite, and of an
-- edge's, makes a finite run of rounds and ends, and on any fuel above the number of tokens that are left
-- `repeat` returns what that run ends in, be it the filter and the tokens behind it or an error: its fuel
-- never runs out.
pub where-Runs :
    (floats : FloatOps) (n : ℕ) (tokens : List Token)
    → length tokens < n
    → ((f : NodeFilter)
        → Runs apply_node_condition
            (skip_keyword (codes "AND"))
            f
            tokens
            (repeat apply_node_condition (skip_keyword (codes "AND")) n f tokens))
      × ((f : EdgeFilter)
          → Runs
              (apply_edge_condition floats)
              (skip_keyword (codes "AND"))
              f
              tokens
              (repeat (apply_edge_condition floats) (skip_keyword (codes "AND")) n f tokens))
unfolding apply_node_condition apply_edge_condition parse_condition consume_ident_or_any
where-Runs floats n tokens le = (
  λ f.
      repeat-Runs apply_node_condition _ n f tokens
        (record { at_end = λ g. refl; takes = apply_node_condition-takes })
        (skip_keyword-Shrinks (codes "AND")) le,
  λ f.
      repeat-Runs (apply_edge_condition floats) _ n f tokens
        (record { at_end = λ g. refl; takes = apply_edge_condition-takes floats })
        (skip_keyword-Shrinks (codes "AND")) le,
)
