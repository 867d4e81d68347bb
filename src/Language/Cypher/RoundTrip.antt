-- ===== src/Language/Cypher/RoundTrip.antt =====
-- CypherLite reads back every command that it can write.
use ad_graph_db.Base.{
  ℕ, ◌≡◌, refl, ap, List, [], ◌∷◌, ◌++◌, map, true, false, Option, none, some, arith,
}
use ad_graph_db.Core.{Text, ok}
use ad_graph_db.Core.Float.{FloatOps}
use ad_graph_db.Query.Ast.{bfs, dfs, EdgeFilter, QueryCommand, match_nodes, match_edges}
use ad_graph_db.Language.Chars.{codes, TextOps}
use ad_graph_db.Language.Parser.{command_of}
use ad_graph_db.Language.Cypher.Lexer.{
  Token, ident, l_paren, r_paren, l_bracket, r_bracket, dash, arrow, CharOps,
}
use ad_graph_db.Language.Cypher.Lexer.Spaced.{lex-spaced}
use ad_graph_db.Language.Cypher.{
  expect_keyword, expect_token, optional_name, optional_label, consume_ident, parse_node_pattern,
  parse_rel_pattern, parse_node_ref, parse_node_match, parse_rel_match, parse_match, parse_traverse,
  parse_path, parse_count, parse, returning, skip_return_list, scan_pattern,
  is_relationship_pattern, parse_only,
}
use ad_graph_db.Language.Cypher.Conditions.{
  optional_where-where_tokens, node_properties, edge_conditions,
}
use ad_graph_db.Language.Cypher.Printed.{command_tokens-AllLexed}
use ad_graph_db.Language.Cypher.Print.{
  condition_tokens, if_some, where_tokens, return_tokens, label_tokens, command_tokens, token_text,
  print, IsCommand,
}

node-pattern :
    (l : Option Text) (rest : List Token)
    → parse_node_pattern (l_paren ∷ ident (codes "n") ∷ label_tokens l (r_paren ∷ rest))
      ≡ ok ((some (codes "n"), l), rest)
unfolding parse_node_pattern expect_token optional_name optional_label consume_ident
node-pattern none rest = refl
node-pattern (some l) rest = refl

empty-pattern :
    (rest : List Token) → parse_node_pattern (l_paren ∷ r_paren ∷ rest) ≡ ok ((none, none), rest)
unfolding parse_node_pattern expect_token optional_name optional_label
empty-pattern rest = refl

rel-pattern :
    (l : Option Text) (rest : List Token)
    → parse_rel_pattern (ident (codes "r") ∷ label_tokens l (r_bracket ∷ rest))
      ≡ ok (l, r_bracket ∷ rest)
unfolding parse_rel_pattern optional_name optional_label consume_ident
rel-pattern none rest = refl
rel-pattern (some l) rest = refl

-- Behind the pattern of a node comes a keyword, so no dash is found.
scan-where :
    (cs : List (List Token)) (var : Text)
    → scan_pattern 0 true (where_tokens cs (return_tokens var)) ≡ false
scan-where [] var = refl
scan-where (c ∷ cs) var = refl

scan-node :
    (l : Option Text) (cs : List (List Token)) (var : Text)
    → is_relationship_pattern (
        l_paren
        ∷ ident (codes "n")
        ∷ label_tokens l (r_paren ∷ where_tokens cs (return_tokens var)))
      ≡ false
scan-node none cs var = scan-where cs var
scan-node (some l) cs var = scan-where cs var

return_tokens-returning :
    {A : Type 0} (command : A) (var : Text)
    → returning command (return_tokens var) ≡ ok (command, [])
unfolding returning expect_keyword skip_return_list
return_tokens-returning command var = refl

module _ (ieee : FloatOps) (f64_text : ℕ → Text) (chars : CharOps) (ops : TextOps) where
  -- The parser on the tokens of a command.
  parse-command_tokens :
      (c : QueryCommand) → IsCommand f64_text ops c → parse ieee (command_tokens c) ≡ ok (c, [])
  unfolding parse parse_match parse_node_match parse_rel_match parse_traverse parse_path parse_count
      expect_keyword expect_token parse_node_ref
  parse-command_tokens (match_nodes f) (l, cs) =
      let conditions = map (condition_tokens (codes "n")) f.property_conditions in
      rw
        (
          scan-node f.label conditions (codes "n"),
          node-pattern f.label (where_tokens conditions (return_tokens (codes "n"))),
          optional_where-where_tokens (record { label = f.label; property_conditions = [] }) f
              conditions (codes "n")
              (node_properties f64_text ops (codes "n") f.property_conditions
                (record { label = f.label; property_conditions = [] }) cs),
        )
        (return_tokens-returning (match_nodes f) (codes "n"))
  parse-command_tokens (match_edges f) (l, w, cs, ks) =
      let conditions =
        if_some f.weight_condition ++ map (condition_tokens (codes "r")) f.property_conditions in
      let default : EdgeFilter = record {
        label = f.label;
        weight_condition = none;
        property_conditions = [];
      } in
      let behind =
        r_bracket
        ∷ arrow
        ∷ l_paren
        ∷ r_paren
        ∷ where_tokens conditions (return_tokens (codes "r")) in
      rw
        (
          empty-pattern (dash ∷ l_bracket ∷ ident (codes "r") ∷ label_tokens f.label behind),
          rel-pattern f.label
              (arrow ∷ l_paren ∷ r_paren ∷ where_tokens conditions (return_tokens (codes "r"))),
          empty-pattern (where_tokens conditions (return_tokens (codes "r"))),
          optional_where-where_tokens default f conditions (codes "r") (
              edge_conditions f64_text ops ieee f.label f.weight_condition f.property_conditions cs
                ks),
        )
        (return_tokens-returning (match_edges f) (codes "r"))
  parse-command_tokens (QueryCommand.get_node id) h = ground (arith, h)
  parse-command_tokens (QueryCommand.get_edge id) h = ground (arith, h)
  parse-command_tokens (QueryCommand.traverse bfs start) h = refl
  parse-command_tokens (QueryCommand.traverse dfs start) h = refl
  parse-command_tokens (QueryCommand.shortest_path start goal) h = refl
  parse-command_tokens QueryCommand.count_nodes h = refl
  parse-command_tokens QueryCommand.count_edges h = refl

  -- A command is read back from its text in CypherLite, if it is one that CypherLite can write: no
  -- `get`, names that are ASCII identifiers and no keyword, literal or reference, ASCII strings without
  -- quotes, integers without a sign, no null, floats with a text that reads as them, and no property
  -- called `weight` among the conditions on edges.
  pub parse_only-print :
      (c : QueryCommand)
      → IsCommand f64_text ops c
      → parse_only ieee chars ops (print f64_text c) ≡ some (ok c)
  unfolding parse_only print
  parse_only-print c h =
      rw
        (lex-spaced chars ops (token_text f64_text) (command_tokens c)
          (command_tokens-AllLexed f64_text chars ops c h))
        (ap (λ r. some (command_of r)) (parse-command_tokens c h))
