-- ===== src/Language/Cypher/Conditions.antt =====
-- That the conditions behind a `WHERE` of CypherLite are read back, each by one round of the loop.
use mathlib.Core.List.{append_assoc, append-nil}
use ad_graph_db.Base.{ℕ, ◌≡◌, refl, sym, List, [], ◌∷◌, ◌++◌, map, false, Option, none, some, arith}
use ad_graph_db.Core.{Text, Value, null, boolean, integer, float, text, ok}
use ad_graph_db.Core.Float.{FloatOps}
use ad_graph_db.Query.Ast.{
  ComparisonOp, eq, not_eq, lt, lt_eq, gt, gt_eq, NodeFilter, EdgeFilter, PropertyCondition,
  WeightCondition,
}
use ad_graph_db.Language.Chars.{codes, TextOps, eq_ignore_ascii_case, ascii_lower}
use ad_graph_db.Language.Parser.{Parser}
use ad_graph_db.Language.Parser.Between.{Takes, done, one, repeat-between, length-append-between}
use ad_graph_db.Language.Cypher.Lexer.{Token, keyword}
use ad_graph_db.Language.Cypher.{
  skip_keyword, expect_token, parse_op, parse_value_lit, consume_ident, consume_ident_or_any,
  parse_condition, apply_node_condition, apply_edge_condition, optional_where,
}
use ad_graph_db.Language.Cypher.Print.{
  op_token, value_token, condition_tokens, weight_tokens, if_some, where_tokens, return_tokens,
  IsWritable, AreConditions, AreNoWeights,
}

parse_op-op_token :
    (op : ComparisonOp) (rest : List Token) → parse_op (op_token op ∷ rest) ≡ ok (op, rest)
unfolding parse_op
parse_op-op_token eq rest = refl
parse_op-op_token not_eq rest = refl
parse_op-op_token lt rest = refl
parse_op-op_token lt_eq rest = refl
parse_op-op_token gt rest = refl
parse_op-op_token gt_eq rest = refl

-- The loop stops before `RETURN`.
pub optional_where-where_tokens :
    {F : Type 0} {apply : F → Parser Token F} (f g : F) (cs : List (List Token)) (var : Text)
    → Takes apply f cs g
    → optional_where apply f (where_tokens cs (return_tokens var)) ≡ ok (g, return_tokens var)
unfolding optional_where skip_keyword
optional_where-where_tokens f _ [] var done = refl
optional_where-where_tokens {F = F} {apply = apply} f g (c ∷ cs) var h =
    repeat-between apply (skip_keyword (codes "AND")) (keyword (codes "AND")) (return_tokens var) _
      f g c cs (λ tokens. refl) refl h
      (omega (arith, length-append-between (keyword (codes "AND")) c cs (return_tokens var)))

module _ (f64_text : ℕ → Text) (ops : TextOps) where
  parse_value_lit-value_token :
      (v : Value) (rest : List Token)
      → IsWritable f64_text ops v
      → parse_value_lit (value_token v ∷ rest) ≡ ok (v, rest)
  unfolding parse_value_lit
  parse_value_lit-value_token null rest h = ground (arith, h)
  parse_value_lit-value_token (boolean b) rest h = refl
  parse_value_lit-value_token (integer i) rest h = refl
  parse_value_lit-value_token (float x) rest h = refl
  parse_value_lit-value_token (text s) rest h = refl

  parse_condition-condition_tokens :
      (var : Text) (c : PropertyCondition) (rest : List Token)
      → IsWritable f64_text ops c.value
      → parse_condition (condition_tokens var c ++ rest) ≡ ok (c, rest)
  unfolding parse_condition consume_ident_or_any expect_token consume_ident
  parse_condition-condition_tokens var c rest h =
      rw
        (
          parse_op-op_token c.op (value_token c.value ∷ rest),
          parse_value_lit-value_token c.value rest h,
        )
        refl

  node_property :
      (var : Text) (c : PropertyCondition) (f : NodeFilter) (rest : List Token)
      → IsWritable f64_text ops c.value
      → apply_node_condition f (condition_tokens var c ++ rest)
        ≡ ok (record f { property_conditions = f.property_conditions ++ c ∷ [] }, rest)
  unfolding apply_node_condition
  node_property var c f rest h = rw (parse_condition-condition_tokens var c rest h) refl

  -- The conditions on the properties come one behind the other.
  pub node_properties :
      (var : Text) (cs : List PropertyCondition) (f : NodeFilter)
      → AreConditions f64_text ops cs
      → Takes apply_node_condition f
          (map (condition_tokens var) cs)
          (record f { property_conditions = f.property_conditions ++ cs })
  node_properties var [] f h = rw (append-nil f.property_conditions) done
  node_properties var (c ∷ cs) f (k, h, hs) =
      rw (sym (append_assoc f.property_conditions (c ∷ []) cs)) (
        one (λ rest. node_property var c f rest h)
          (node_properties var cs
            (record f { property_conditions = f.property_conditions ++ c ∷ [] }) hs))

  module _ (ieee : FloatOps) where
    edge_property :
        (var : Text) (c : PropertyCondition) (f : EdgeFilter) (rest : List Token)
        → IsWritable f64_text ops c.value
        → eq_ignore_ascii_case c.key (codes "weight") ≡ false
        → apply_edge_condition ieee f (condition_tokens var c ++ rest)
          ≡ ok (record f { property_conditions = f.property_conditions ++ c ∷ [] }, rest)
    unfolding apply_edge_condition
    edge_property var c f rest h key =
        rw (parse_condition-condition_tokens var c rest h) (rw key refl)

    edge_properties :
        (var : Text) (cs : List PropertyCondition) (f : EdgeFilter)
        → AreConditions f64_text ops cs
        → AreNoWeights f64_text ops cs
        → Takes
            (apply_edge_condition ieee)
            f
            (map (condition_tokens var) cs)
            (record f { property_conditions = f.property_conditions ++ cs })
    edge_properties var [] f h w = rw (append-nil f.property_conditions) done
    edge_properties var (c ∷ cs) f (k, h, hs) (w, ws) =
        rw (sym (append_assoc f.property_conditions (c ∷ []) cs)) (
          one (λ rest. edge_property var c f rest h w)
            (edge_properties var cs
              (record f { property_conditions = f.property_conditions ++ c ∷ [] }) hs ws))

    edge_weight :
        (w : WeightCondition) (f : EdgeFilter) (rest : List Token)
        → apply_edge_condition ieee f (weight_tokens w ++ rest)
          ≡ ok (record f { weight_condition = some w }, rest)
    unfolding apply_edge_condition parse_condition consume_ident_or_any expect_token consume_ident
        parse_value_lit eq_ignore_ascii_case ascii_lower
    edge_weight w f rest = rw (parse_op-op_token w.op _) refl

    -- From the filter of the pattern to the one that is printed.
    pub edge_conditions :
        (label : Option Text) (weight : Option WeightCondition) (cs : List PropertyCondition)
        → AreConditions f64_text ops cs
        → AreNoWeights f64_text ops cs
        → Takes
            (apply_edge_condition ieee)
            (record { label = label; weight_condition = none; property_conditions = [] })
            (if_some weight ++ map (condition_tokens (codes "r")) cs)
            (record { label = label; weight_condition = weight; property_conditions = cs })
    edge_conditions label none cs h w =
        edge_properties (codes "r") cs
          (record { label = label; weight_condition = none; property_conditions = [] }) h w
    edge_conditions label (some x) cs h w =
        one
          (edge_weight x
            (record { label = label; weight_condition = none; property_conditions = [] }))
          (edge_properties (codes "r") cs
            (record { label = label; weight_condition = some x; property_conditions = [] }) h w)
