-- ===== src/Language/Simple.antt =====
-- src/query/languages/simple.rs. The number of tokens is the fuel for the conditions of a `WHERE`, and
-- enough (Simple/Termination).
pub mod Tokens
pub mod Termination
pub mod Print
pub mod Values
pub mod Conditions
pub mod Printed
pub mod RoundTrip
use mathlib.Core.List.{foldl}
use ad_graph_db.Base.{
  ℕ, zero, suc, List, [], ◌∷◌, ◌++◌, Bool, true, false, not, ◌&&◌, ◌||◌, Option, none, some, length,
  drop, take, any, leb, is_empty, ◌-◌, nat_eq, list_eq, ◌==◌, if◌then◌else◌,
}
use ad_graph_db.Core.{
  NodeId, EdgeId, Text, Value, null, boolean, integer, float, text, SyntaxError, end_expecting,
  expected, unknown_word, unknown_field, unknown_operator, label_needs_equals, not_a_number,
  not_quoted, unterminated_string, not_a_reference, Result, ok, err,
}
use ad_graph_db.Core.Float.{FloatOps}
use ad_graph_db.Query.Ast.{
  ComparisonOp, eq, not_eq, lt, lt_eq, gt, gt_eq, TraversalKind, bfs, dfs, NodeFilter, EdgeFilter,
  PropertyCondition, WeightCondition, QueryCommand, match_nodes, match_edges, op_beq,
}
use ad_graph_db.Query.Context.{DatabaseContext, QueryResult}
use ad_graph_db.Query.Executor
use ad_graph_db.Language.Chars.{
  codes, TextOps, to_uppercase, to_lowercase, eq_ignore_ascii_case, starts_with, ends_with_byte,
  parse_u64, parse_i64,
}
use ad_graph_db.Language.Parser.{Parser, ◌>>=◌, give, refuse, next_or, repeat, command_of}

-- The variables of the loop of `tokenize`.
pub record Tokenizer : Type 0 where
  pub in_string : Bool
  pub current : Text
  pub tokens : List Text

abbrev pub quote : ℕ
quote = b'"'

abbrev pub is_blank : ℕ → Bool
is_blank c = c == b' ' || (c == b'\t' || (c == b'\n' || c == b'\r'))

-- A word that is not empty is a token.
abbrev pub emit : Text → List Text → List Text
emit current tokens = if is_empty current then tokens else tokens ++ current ∷ []

unfoldable pub scan_char : Tokenizer → ℕ → Tokenizer
scan_char s c =
    if c == quote
    then if s.in_string
      then record {
        in_string = false;
        current = [];
        tokens = s.tokens ++ (s.current ++ c ∷ []) ∷ [];
      }
      else record s { in_string = true; current = s.current ++ c ∷ [] }
    else if is_blank c && not s.in_string
    then record s { current = []; tokens = emit s.current s.tokens }
    else record s { current = s.current ++ c ∷ [] }

abbrev pub no_tokens : Tokenizer
no_tokens = record { in_string = false; current = []; tokens = [] }

unfoldable pub tokenize : Text → List Text
tokenize input = let s = foldl scan_char no_tokens input in emit s.current s.tokens

abbrev pub peek_keyword : Text → List Text → Bool
peek_keyword kw [] = false
peek_keyword kw (t ∷ tokens) = eq_ignore_ascii_case t kw

unfoldable pub expect : Text → Parser Text Unit
expect kw = do
  t ← next_or (end_expecting kw)
  if eq_ignore_ascii_case t kw then give tt else refuse (expected kw t)

-- `if self.peek_keyword(kw) { self.next(); }`, and whether it did.
unfoldable pub skip_keyword : Text → Parser Text Bool
skip_keyword kw tokens =
    if peek_keyword kw tokens then ok (true, drop 1 tokens) else ok (false, tokens)

unfoldable pub parse_op : Parser Text ComparisonOp
parse_op = do
  t ← next_or (end_expecting [])
  if t == codes "="
      then give eq
      else if t == codes "!="
      then give not_eq
      else if t == codes "<"
      then give lt
      else if t == codes "<="
      then give lt_eq
      else if t == codes ">"
      then give gt
      else if t == codes ">="
      then give gt_eq
      else refuse (unknown_operator t)

-- `tok[1..tok.len() - 1]`
abbrev pub unquoted : Text → Text
unquoted t = take (length t - 2) (drop 1 t)

abbrev pub is_quoted : Text → Bool
is_quoted t = starts_with (quote ∷ []) t && (ends_with_byte quote t && leb 2 (length t))

unfoldable pub parse_string_lit : Parser Text Text
parse_string_lit = do
  t ← next_or (end_expecting [])
  if is_quoted t then give (unquoted t) else refuse (not_quoted t)

-- `tok.parse().map_err(…)?`
abbrev pub number_or : {A : Type 0} → SyntaxError → Option A → Parser Text A
number_or e none = refuse e
number_or e (some n) = give n

abbrev pub reference : ℕ → Text → Option ℕ
reference letter [] = none
reference letter (c ∷ s) = if c == letter then parse_u64 s else none

-- `parse_node_ref` and `parse_edge_ref`, by their letters.
unfoldable pub parse_ref : ℕ → Parser Text ℕ
parse_ref letter = do
  t ← next_or (end_expecting [])
  number_or (not_a_reference t) (reference letter t)

abbrev pub node_default : NodeFilter
node_default = record { label = none; property_conditions = [] }

abbrev pub edge_default : EdgeFilter
edge_default = record { label = none; weight_condition = none; property_conditions = [] }

-- The loops of `parse_node_filter_chain` and `parse_edge_filter_chain`, by what one round does.
unfoldable pub filter_chain : {F : Type 0} → (F → Parser Text F) → ℕ → F → Parser Text F
filter_chain apply = repeat apply (skip_keyword (codes "AND"))

unfoldable pub optional_filter : {F : Type 0} → (F → Parser Text F) → F → Parser Text F
optional_filter apply default tokens =
    if peek_keyword (codes "WHERE") tokens
    then filter_chain apply (length tokens) default (drop 1 tokens)
    else ok (default, tokens)

abbrev pub run_command :
    {D : Type 0} → FloatOps → DatabaseContext D → D → Result QueryCommand → Result QueryResult × D
run_command f ctx d (err e) = (err e, d)
run_command f ctx d (ok command) = Executor.execute f ctx command d

module _ (ops : TextOps) where
  unfoldable pub keyword : Parser Text Text
  keyword = do t ← next_or (end_expecting []); give (to_uppercase ops t)

  unfoldable pub parse_value_lit : Parser Text Value
  parse_value_lit = do
    t ← next_or (end_expecting [])
    if starts_with (quote ∷ []) t
        then (if is_quoted t then give (text (unquoted t)) else refuse (unterminated_string t))
        else if eq_ignore_ascii_case t (codes "true")
        then give (boolean true)
        else if eq_ignore_ascii_case t (codes "false")
        then give (boolean false)
        else if eq_ignore_ascii_case t (codes "null")
        then give null
        else if any (λ c. c == b'.') t
        then (do x ← number_or (not_a_number t) (ops.parse_f64 t); give (float x))
        else (do i ← number_or (not_a_number t) (parse_i64 t); give (integer i))

  abbrev pub is_property : Text → Bool
  is_property field = starts_with (codes "props.") (to_lowercase ops field)

  -- The label's comparison, which must be `=`.
  unfoldable pub parse_label : Parser Text Text
  parse_label = do
    op ← parse_op
    if not (op_beq op eq) then refuse label_needs_equals else parse_string_lit

  unfoldable pub parse_property : Text → Parser Text PropertyCondition
  parse_property field = do
    op ← parse_op
    value ← parse_value_lit
    give (record { key = drop 6 field; op = op; value = value })

  unfoldable pub apply_node_condition : NodeFilter → Parser Text NodeFilter
  apply_node_condition filter = do
    field ← next_or (end_expecting [])
    if eq_ignore_ascii_case field (codes "label")
        then (do l ← parse_label; give (record filter { label = some l }))
        else if is_property field
        then (do
          c ← parse_property field
          give (record filter { property_conditions = filter.property_conditions ++ c ∷ [] }))
        else refuse (unknown_field field)

  unfoldable pub parse_weight : Parser Text WeightCondition
  parse_weight = do
    op ← parse_op
    raw ← next_or (end_expecting [])
    value ← number_or (not_a_number raw) (ops.parse_f64 raw)
    give (record { op = op; value = value })

  unfoldable pub apply_edge_condition : EdgeFilter → Parser Text EdgeFilter
  apply_edge_condition filter = do
    field ← next_or (end_expecting [])
    if eq_ignore_ascii_case field (codes "label")
        then (do l ← parse_label; give (record filter { label = some l }))
        else if eq_ignore_ascii_case field (codes "weight")
        then (do w ← parse_weight; give (record filter { weight_condition = some w }))
        else if is_property field
        then (do
          c ← parse_property field
          give (record filter { property_conditions = filter.property_conditions ++ c ∷ [] }))
        else refuse (unknown_field field)

  unfoldable pub parse_match : Parser Text QueryCommand
  parse_match = do
    kind ← keyword
    if kind == codes "NODE"
        then (do f ← optional_filter apply_node_condition node_default; give (match_nodes f))
        else if kind == codes "EDGE"
        then (do f ← optional_filter apply_edge_condition edge_default; give (match_edges f))
        else refuse (expected (codes "NODE or EDGE") kind)

  unfoldable pub parse_get : Parser Text QueryCommand
  parse_get = do
    kind ← keyword
    if kind == codes "NODE"
        then (do id ← parse_ref b'N'; give (QueryCommand.get_node id))
        else if kind == codes "EDGE"
        then (do id ← parse_ref b'E'; give (QueryCommand.get_edge id))
        else refuse (expected (codes "NODE or EDGE") kind)

  abbrev pub traversal_kind : Text → Parser Text TraversalKind
  traversal_kind algo =
      if algo == codes "BFS"
      then give bfs
      else if algo == codes "DFS"
      then give dfs
      else refuse (expected (codes "BFS or DFS") algo)

  unfoldable pub parse_traverse : Parser Text QueryCommand
  parse_traverse = do
    algo ← keyword
    kind ← traversal_kind algo
    _ ← expect (codes "FROM")
    start ← parse_ref b'N'
    give (QueryCommand.traverse kind start)

  unfoldable pub parse_path : Parser Text QueryCommand
  parse_path = do
    _ ← expect (codes "FROM")
    start ← parse_ref b'N'
    _ ← expect (codes "TO")
    goal ← parse_ref b'N'
    give (QueryCommand.shortest_path start goal)

  unfoldable pub parse_count : Parser Text QueryCommand
  parse_count = do
    what ← keyword
    if what == codes "NODES"
        then give QueryCommand.count_nodes
        else if what == codes "EDGES"
        then give QueryCommand.count_edges
        else refuse (expected (codes "NODES or EDGES") what)

  unfoldable pub parse : Parser Text QueryCommand
  parse = do
    kw ← keyword
    if kw == codes "MATCH"
        then parse_match
        else if kw == codes "GET"
        then parse_get
        else if kw == codes "TRAVERSE"
        then parse_traverse
        else if kw == codes "PATH"
        then parse_path
        else if kw == codes "COUNT"
        then parse_count
        else refuse (unknown_word kw)

  -- `Parser::new(query).parse()`
  unfoldable pub parse_query : Text → Result QueryCommand
  parse_query query = command_of (parse (tokenize query))

  -- `SimpleQueryLanguage::execute`
  unfoldable pub execute :
      {D : Type 0} → FloatOps → DatabaseContext D → Text → D → Result QueryResult × D
  execute f ctx query d = run_command f ctx d (parse_query query)
