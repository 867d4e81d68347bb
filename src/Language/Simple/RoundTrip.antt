-- ===== src/Language/Simple/RoundTrip.antt =====
-- SimpleQuery reads back every command that it can write.
use ad_graph_db.Base.{ℕ, ◌≡◌, refl, ap, [], ◌∷◌, nat_eq}
use ad_graph_db.Core.{Text, ok}
use ad_graph_db.Query.Ast.{bfs, dfs, QueryCommand, match_nodes, match_edges}
use ad_graph_db.Language.Chars.{
  codes, TextOps, ascii_upper, ascii_lower, to_uppercase, eq_ignore_ascii_case,
}
use ad_graph_db.Language.Parser.{command_of}
use ad_graph_db.Language.Simple.{
  keyword, expect, parse_match, parse_get, parse_traverse, parse_path, parse_count, parse,
  parse_query, node_default, edge_default,
}
use ad_graph_db.Language.Simple.Tokens.{tokenize-spaced}
use ad_graph_db.Language.Simple.Printed.{command_tokens-AreTokens}
use ad_graph_db.Language.Simple.Values.{parse_ref-reference_token}
use ad_graph_db.Language.Simple.Conditions.{
  node_conditions, edge_conditions, optional_filter-where_tokens,
}
use ad_graph_db.Language.Simple.Print.{reference_token, command_tokens, print, IsCommand}

module _ (f64_text : ℕ → Text) (ops : TextOps) where
  -- The parser on the tokens of a command.
  parse-command_tokens :
      (c : QueryCommand)
      → IsCommand f64_text ops c
      → parse ops (command_tokens f64_text c) ≡ ok (c, [])
  unfolding parse keyword expect parse_match parse_get parse_traverse parse_path parse_count
      to_uppercase ascii_upper eq_ignore_ascii_case ascii_lower
  parse-command_tokens (match_nodes f) (l, cs) =
      rw
        (optional_filter-where_tokens node_default f _
          (node_conditions f64_text ops f.label f.property_conditions cs))
        refl
  parse-command_tokens (match_edges f) (l, w, cs) =
      rw
        (optional_filter-where_tokens edge_default f _
          (edge_conditions f64_text ops f.label f.weight_condition f.property_conditions w cs))
        refl
  parse-command_tokens (QueryCommand.get_node id) h =
      rw (parse_ref-reference_token b'N' id [] h) refl
  parse-command_tokens (QueryCommand.get_edge id) h =
      rw (parse_ref-reference_token b'E' id [] h) refl
  parse-command_tokens (QueryCommand.traverse bfs start) h =
      rw (parse_ref-reference_token b'N' start [] h) refl
  parse-command_tokens (QueryCommand.traverse dfs start) h =
      rw (parse_ref-reference_token b'N' start [] h) refl
  parse-command_tokens (QueryCommand.shortest_path start goal) (h, k) =
      rw (parse_ref-reference_token b'N' start (codes "TO" ∷ reference_token b'N' goal ∷ []) h)
        (rw (parse_ref-reference_token b'N' goal [] k) refl)
  parse-command_tokens QueryCommand.count_nodes h = refl
  parse-command_tokens QueryCommand.count_edges h = refl

  -- A command is read back from its text in SimpleQuery, if its strings, labels and keys hold no quote,
  -- its keys are ASCII without blanks, its numbers fit their widths, and each float has a text that
  -- reads as it, with a point.
  pub parse_query-print :
      (c : QueryCommand) → IsCommand f64_text ops c → parse_query ops (print f64_text c) ≡ ok c
  unfolding parse_query print
  parse_query-print c h =
      rw (tokenize-spaced (command_tokens f64_text c) (command_tokens-AreTokens f64_text ops c h))
        (ap command_of (parse-command_tokens c h))
