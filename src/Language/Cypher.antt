-- ===== src/Language/Cypher.antt =====
-- The parser of src/query/languages/cypher_lite.rs. The loops over the conditions of a `WHERE` recur on the
-- number of tokens.
pub mod Lexer
pub mod Print
pub mod Conditions
pub mod Printed
pub mod RoundTrip
pub mod Unsigned
pub mod Termination
use ad_graph_db.Base.{
  ℕ, zero, suc, List, [], ◌∷◌, ◌++◌, Bool, true, false, not, ◌&&◌, ◌||◌, Option, none, some, length,
  drop, nat_eq, list_eq, ◌==◌, ◌+◌, ◌-◌, ◌%◌, ◌^◌, if◌then◌else◌,
}
use ad_graph_db.Core.{
  NodeId, Text, Value, null, boolean, integer, float, text, SyntaxError, end_expecting, expected,
  empty_query, unexpected_token, weight_needs_number, deserialization_error, syntax_error,
  GraphError, Result, ok, err,
}
use ad_graph_db.Core.Float.{FloatOps}
use ad_graph_db.Query.Ast.{
  ComparisonOp, eq, not_eq, lt, lt_eq, gt, gt_eq, TraversalKind, bfs, dfs, NodeFilter, EdgeFilter,
  PropertyCondition, WeightCondition, QueryCommand, match_nodes, match_edges,
}
use ad_graph_db.Query.Context.{DatabaseContext, QueryResult}
use ad_graph_db.Query.Executor
use ad_graph_db.Language.Chars.{codes, TextOps, eq_ignore_ascii_case}
use ad_graph_db.Language.Parser.{
  Parser, go_on_with, ◌>>=◌, give, refuse, next_or, repeat, command_of,
}
use ad_graph_db.Language.Cypher.Lexer.{
  Token, keyword, ident, node_ref, string_lit, int_lit, float_lit, bool_lit, eq_sign, not_eq_sign,
  lt_sign, lt_eq_sign, gt_sign, gt_eq_sign, l_paren, r_paren, l_bracket, r_bracket, colon, dot,
  dash, arrow, CharOps, Lex, all_tokens, lex_error, panic, lex,
}

abbrev pub is_keyword : Text → Token → Bool
is_keyword kw (keyword k) = k == kw
is_keyword kw _ = false

abbrev pub peek_keyword : Text → List Token → Bool
peek_keyword kw [] = false
peek_keyword kw (t ∷ tokens) = is_keyword kw t

unfoldable pub expect_keyword : Text → Parser Token Unit
expect_keyword kw = do
  t ← next_or (end_expecting kw)
  if is_keyword kw t then give tt else refuse unexpected_token

-- `if self.peek_keyword(kw) { self.next(); }`, and whether it did.
unfoldable pub skip_keyword : Text → Parser Token Bool
skip_keyword kw tokens =
    if peek_keyword kw tokens then ok (true, drop 1 tokens) else ok (false, tokens)

-- The marks that the parser asks for, told apart.
abbrev pub mark : Token → ℕ
mark l_paren = 1
mark r_paren = 2
mark l_bracket = 3
mark r_bracket = 4
mark colon = 5
mark dot = 6
mark arrow = 7
mark dash = 8
mark _ = 0

-- `expect_token` and `expect_dash`, of a mark.
unfoldable pub expect_token : Token → Parser Token Unit
expect_token wanted = do
  t ← next_or (end_expecting [])
  if mark t == mark wanted then give tt else refuse unexpected_token

abbrev pub op_of : Token → Parser Token ComparisonOp
op_of eq_sign = give eq
op_of not_eq_sign = give not_eq
op_of lt_sign = give lt
op_of lt_eq_sign = give lt_eq
op_of gt_sign = give gt
op_of gt_eq_sign = give gt_eq
op_of _ = refuse unexpected_token

unfoldable pub parse_op : Parser Token ComparisonOp
parse_op = do t ← next_or unexpected_token; op_of t

abbrev pub value_of : Token → Parser Token Value
value_of (string_lit s) = give (text s)
value_of (int_lit i) = give (integer i)
value_of (float_lit x) = give (float x)
value_of (bool_lit b) = give (boolean b)
value_of _ = refuse unexpected_token

unfoldable pub parse_value_lit : Parser Token Value
parse_value_lit = do t ← next_or unexpected_token; value_of t

abbrev pub node_of : Token → Parser Token NodeId
node_of (node_ref id) = give id
node_of _ = refuse unexpected_token

unfoldable pub parse_node_ref : Parser Token NodeId
parse_node_ref = do t ← next_or unexpected_token; node_of t

abbrev pub name_of : Token → Parser Token Text
name_of (ident s) = give s
name_of _ = refuse unexpected_token

unfoldable pub consume_ident : Parser Token Text
consume_ident = do t ← next_or unexpected_token; name_of t

abbrev pub any_name : Token → Text
any_name (ident s) = s
any_name _ = codes "_"

unfoldable pub consume_ident_or_any : Parser Token Text
consume_ident_or_any = do t ← next_or (end_expecting []); give (any_name t)

-- A variable's name, where the next token is an identifier.
unfoldable pub optional_name : Parser Token (Option Text)
optional_name (ident s ∷ tokens) = ok (some s, tokens)
optional_name tokens = ok (none, tokens)

unfoldable pub optional_label : Parser Token (Option Text)
optional_label (colon ∷ tokens) = go_on_with (λ l. give (some l)) (consume_ident tokens)
optional_label tokens = ok (none, tokens)

unfoldable pub parse_node_pattern : Parser Token (Option Text × Option Text)
parse_node_pattern = do
  _ ← expect_token l_paren
  var ← optional_name
  label ← optional_label
  _ ← expect_token r_paren
  give (var, label)

unfoldable pub parse_rel_pattern : Parser Token (Option Text)
parse_rel_pattern = do _ ← optional_name; optional_label

-- `var "." field op value`, the first part of both loops.
unfoldable pub parse_condition : Parser Token PropertyCondition
parse_condition = do
  _ ← consume_ident_or_any
  _ ← expect_token dot
  field ← consume_ident
  op ← parse_op
  value ← parse_value_lit
  give (record { key = field; op = op; value = value })

unfoldable pub apply_node_condition : NodeFilter → Parser Token NodeFilter
apply_node_condition filter = do
  c ← parse_condition
  give (record filter { property_conditions = filter.property_conditions ++ c ∷ [] })

-- A number as an `f64`.
abbrev pub weight_of : FloatOps → Value → Option ℕ
weight_of f (float x) = some x
weight_of f (integer i) = some (f.of_i64 i)
weight_of f _ = none

abbrev pub set_weight : EdgeFilter → ComparisonOp → Option ℕ → Parser Token EdgeFilter
set_weight filter op none = refuse weight_needs_number
set_weight filter op (some w) =
    give (record filter { weight_condition = some (record { op = op; value = w }) })

unfoldable pub apply_edge_condition : FloatOps → EdgeFilter → Parser Token EdgeFilter
apply_edge_condition f filter = do
  c ← parse_condition
  if eq_ignore_ascii_case c.key (codes "weight")
      then set_weight filter c.op (weight_of f c.value)
      else give (record filter { property_conditions = filter.property_conditions ++ c ∷ [] })

unfoldable pub optional_where : {F : Type 0} → (F → Parser Token F) → F → Parser Token F
optional_where apply default tokens =
    if peek_keyword (codes "WHERE") tokens
    then repeat apply (skip_keyword (codes "AND")) (length tokens) default (drop 1 tokens)
    else ok (default, tokens)

-- Up to a keyword or the end.
unfoldable pub skip_return_list : List Token → List Token
skip_return_list [] = []
skip_return_list (keyword k ∷ tokens) = keyword k ∷ tokens
skip_return_list (_ ∷ tokens) = skip_return_list tokens

unfoldable pub returning : {A : Type 0} → A → Parser Token A
returning command = do
  _ ← expect_keyword (codes "RETURN")
  λ tokens. ok (command, skip_return_list tokens)

-- The depth is an `i32`.
abbrev pub scan_pattern : ℕ → Bool → List Token → Bool
scan_pattern depth found_close [] = false
scan_pattern depth found_close (l_paren ∷ tokens) =
    scan_pattern ((depth + 1) % 2 ^ 32) found_close tokens
scan_pattern depth found_close (r_paren ∷ tokens) =
    let closer = (depth + (2 ^ 32 - 1)) % 2 ^ 32 in
    scan_pattern closer (closer == 0 || found_close) tokens
scan_pattern depth found_close (dash ∷ tokens) =
    found_close || scan_pattern depth found_close tokens
scan_pattern depth found_close (keyword k ∷ tokens) =
    not (k == codes "WHERE" || k == codes "RETURN") && scan_pattern depth found_close tokens
scan_pattern depth found_close (_ ∷ tokens) = scan_pattern depth found_close tokens

abbrev pub is_relationship_pattern : List Token → Bool
is_relationship_pattern = scan_pattern 0 false

unfoldable pub parse_node_match : Parser Token QueryCommand
parse_node_match = do
  pattern' ← parse_node_pattern
  filter ←
      optional_where apply_node_condition (record { label = pattern'.1; property_conditions = [] })
  returning (match_nodes filter)

unfoldable pub parse_rel_match : FloatOps → Parser Token QueryCommand
parse_rel_match f = do
  _ ← parse_node_pattern
  _ ← expect_token dash
  _ ← expect_token l_bracket
  rel_label ← parse_rel_pattern
  _ ← expect_token r_bracket
  _ ← expect_token arrow
  _ ← parse_node_pattern
  filter ←
      optional_where (apply_edge_condition f)
        (record { label = rel_label; weight_condition = none; property_conditions = [] })
  returning (match_edges filter)

unfoldable pub parse_match : FloatOps → Parser Token QueryCommand
parse_match f = do
  _ ← expect_keyword (codes "MATCH")
  λ tokens.
      if is_relationship_pattern tokens then parse_rel_match f tokens else parse_node_match tokens

abbrev pub traversal_kind : Token → Parser Token TraversalKind
traversal_kind t =
    if is_keyword (codes "BFS") t
    then give bfs
    else if is_keyword (codes "DFS") t
    then give dfs
    else refuse unexpected_token

unfoldable pub parse_traverse : Parser Token QueryCommand
parse_traverse = do
  _ ← expect_keyword (codes "TRAVERSE")
  t ← next_or unexpected_token
  algo ← traversal_kind t
  _ ← expect_keyword (codes "FROM")
  start ← parse_node_ref
  give (QueryCommand.traverse algo start)

unfoldable pub parse_path : Parser Token QueryCommand
parse_path = do
  _ ← expect_keyword (codes "PATH")
  _ ← expect_keyword (codes "FROM")
  start ← parse_node_ref
  _ ← expect_keyword (codes "TO")
  goal ← parse_node_ref
  give (QueryCommand.shortest_path start goal)

unfoldable pub parse_count : Parser Token QueryCommand
parse_count = do
  _ ← expect_keyword (codes "COUNT")
  t ← next_or unexpected_token
  if is_keyword (codes "NODES") t
      then give QueryCommand.count_nodes
      else if is_keyword (codes "EDGES") t
      then give QueryCommand.count_edges
      else refuse unexpected_token

unfoldable pub parse : FloatOps → Parser Token QueryCommand
parse f [] = refuse empty_query []
parse f (t ∷ tokens) =
    if is_keyword (codes "MATCH") t
    then parse_match f (t ∷ tokens)
    else if is_keyword (codes "TRAVERSE") t
    then parse_traverse (t ∷ tokens)
    else if is_keyword (codes "PATH") t
    then parse_path (t ∷ tokens)
    else if is_keyword (codes "COUNT") t
    then parse_count (t ∷ tokens)
    else refuse unexpected_token (t ∷ tokens)

-- `CypherLiteLanguage::parse_only`; nothing where the lexer panics.
abbrev pub parse_lexed : FloatOps → Lex → Option (Result QueryCommand)
parse_lexed f (all_tokens tokens) = some (command_of (parse f tokens))
parse_lexed f (lex_error e) = some (err (deserialization_error (syntax_error e)))
parse_lexed f panic = none

-- `Parser::new`: an error of the lexer leaves no tokens.
abbrev pub unwrap_or_default : Lex → Lex
unwrap_or_default (lex_error e) = all_tokens []
unwrap_or_default l = l

abbrev pub run_command :
    {D : Type 0}
    → FloatOps
    → DatabaseContext D
    → D
    → Option (Result QueryCommand)
    → Option (Result QueryResult × D)
run_command f ctx d none = none
run_command f ctx d (some (err e)) = some (err e, d)
run_command f ctx d (some (ok command)) = some (Executor.execute f ctx command d)

module _ (f : FloatOps) (chars : CharOps) (ops : TextOps) where
  unfoldable pub parse_only : Text → Option (Result QueryCommand)
  parse_only input = parse_lexed f (lex chars ops input)

  -- `CypherLiteLanguage::execute`
  unfoldable pub execute :
      {D : Type 0} → DatabaseContext D → Text → D → Option (Result QueryResult × D)
  execute ctx query d =
      run_command f ctx d (parse_lexed f (unwrap_or_default (lex chars ops query)))
