-- ===== src/Language/Cypher/Print.antt =====
-- The commands in CypherLite, as the grammar at the head of src/query/languages/cypher_lite.rs writes them, with `n` for
-- a node and `r` for an edge. The text of a float is a parameter; what it must be is a condition on the command.
use ad_graph_db.Base.{
  ℕ, ltb, ◌<◌, ◌^◌, ◌≡◌, List, [], ◌∷◌, ◌++◌, map, Bool, true, false, not, ◌&&◌, ◌||◌, Option, none,
  some, any, all, nat_eq, list_eq, ◌==◌,
}
use ad_graph_db.Core.{Text, Value, null, boolean, integer, float, text, IsU64}
use ad_graph_db.Query.Ast.{
  ComparisonOp, eq, not_eq, lt, lt_eq, gt, gt_eq, TraversalKind, bfs, dfs, PropertyCondition,
  WeightCondition, QueryCommand, match_nodes, match_edges,
}
use ad_graph_db.Language.Chars.{codes, is_digit, ascii_upper, TextOps, eq_ignore_ascii_case}
use ad_graph_db.Language.Chars.Decimal.{decimal}
use ad_graph_db.Language.Parser.Between.{between}
use ad_graph_db.Language.Simple.Tokens.{quoted, spaced}
use ad_graph_db.Language.Cypher.Lexer.{
  Token, keyword, ident, node_ref, string_lit, int_lit, float_lit, bool_lit, eq_sign, not_eq_sign,
  lt_sign, lt_eq_sign, gt_sign, gt_eq_sign, l_paren, r_paren, l_bracket, r_bracket, colon, dot,
  comma, dash, arrow, is_letter, keywords, is_reference,
}

abbrev pub op_token : ComparisonOp → Token
op_token eq = eq_sign
op_token not_eq = not_eq_sign
op_token lt = lt_sign
op_token lt_eq = lt_eq_sign
op_token gt = gt_sign
op_token gt_eq = gt_eq_sign

-- Null has no literal: what stands for it is not read.
abbrev pub value_token : Value → Token
value_token null = ident (codes "null")
value_token (boolean b) = bool_lit b
value_token (integer i) = int_lit i
value_token (float x) = float_lit x
value_token (text s) = string_lit s

abbrev pub kind_token : TraversalKind → Token
kind_token bfs = keyword (codes "BFS")
kind_token dfs = keyword (codes "DFS")

abbrev pub condition_tokens : Text → PropertyCondition → List Token
condition_tokens var c = ident var ∷ dot ∷ ident c.key ∷ op_token c.op ∷ value_token c.value ∷ []

abbrev pub weight_tokens : WeightCondition → List Token
weight_tokens w =
    ident (codes "r") ∷ dot ∷ ident (codes "weight") ∷ op_token w.op ∷ float_lit w.value ∷ []

abbrev pub if_some : Option WeightCondition → List (List Token)
if_some none = []
if_some (some w) = weight_tokens w ∷ []

-- The conditions behind `WHERE`, with `AND` between them.
abbrev pub where_tokens : List (List Token) → List Token → List Token
where_tokens [] rest = rest
where_tokens (c ∷ cs) rest =
    keyword (codes "WHERE") ∷ (c ++ between (keyword (codes "AND")) cs rest)

abbrev pub return_tokens : Text → List Token
return_tokens var = keyword (codes "RETURN") ∷ ident var ∷ []

abbrev pub label_tokens : Option Text → List Token → List Token
label_tokens none rest = rest
label_tokens (some l) rest = colon ∷ ident l ∷ rest

abbrev pub command_tokens : QueryCommand → List Token
command_tokens (match_nodes f) =
    keyword (codes "MATCH")
    ∷ l_paren
    ∷ ident (codes "n")
    ∷ label_tokens f.label (
        r_paren
        ∷ where_tokens (map (condition_tokens (codes "n")) f.property_conditions)
            (return_tokens (codes "n")))
command_tokens (match_edges f) =
    keyword (codes "MATCH")
    ∷ l_paren
    ∷ r_paren
    ∷ dash
    ∷ l_bracket
    ∷ ident (codes "r")
    ∷ label_tokens f.label (
        r_bracket
        ∷ arrow
        ∷ l_paren
        ∷ r_paren
        ∷ where_tokens
            (if_some f.weight_condition ++ map (condition_tokens (codes "r")) f.property_conditions)
            (return_tokens (codes "r")))
command_tokens (QueryCommand.traverse kind start) =
    keyword (codes "TRAVERSE") ∷ kind_token kind ∷ keyword (codes "FROM") ∷ node_ref start ∷ []
command_tokens (QueryCommand.shortest_path start goal) =
    keyword (codes "PATH")
    ∷ keyword (codes "FROM")
    ∷ node_ref start
    ∷ keyword (codes "TO")
    ∷ node_ref goal
    ∷ []
command_tokens QueryCommand.count_nodes = keyword (codes "COUNT") ∷ keyword (codes "NODES") ∷ []
command_tokens QueryCommand.count_edges = keyword (codes "COUNT") ∷ keyword (codes "EDGES") ∷ []
command_tokens _ = []

abbrev pub is_name_char : ℕ → Bool
is_name_char c = is_letter c || (is_digit c || c == b'_')

abbrev pub is_reserved : Text → Bool
is_reserved up = up == codes "TRUE" || (up == codes "FALSE" || any (λ k. k == up) keywords)

-- An ASCII identifier that is no keyword, no literal and no reference.
pub record IsName (s : Text) : Type 0 where
  pub head : ℕ
  pub tail : Text
  pub spelled : s ≡ head ∷ tail
  pub start : (is_letter head || head == b'_') ≡ true
  pub word : all is_name_char (head ∷ tail) ≡ true
  pub no_reference : is_reference (head ∷ tail) ≡ false
  pub free : is_reserved (map ascii_upper (head ∷ tail)) ≡ false

abbrev pub IsLabel : Option Text → Type 0
IsLabel none = Unit
IsLabel (some l) = IsName l

module _ (f64_text : ℕ → Text) where
  abbrev pub token_text : Token → Text
  token_text (keyword k) = k
  token_text (ident s) = s
  token_text (node_ref id) = b'N' ∷ decimal id
  token_text (string_lit s) = quoted s
  token_text (int_lit i) = decimal i
  token_text (float_lit x) = f64_text x
  token_text (bool_lit true) = codes "true"
  token_text (bool_lit false) = codes "false"
  token_text eq_sign = codes "="
  token_text not_eq_sign = codes "!="
  token_text lt_sign = codes "<"
  token_text lt_eq_sign = codes "<="
  token_text gt_sign = codes ">"
  token_text gt_eq_sign = codes ">="
  token_text l_paren = codes "("
  token_text r_paren = codes ")"
  token_text l_bracket = codes "["
  token_text r_bracket = codes "]"
  token_text colon = codes ":"
  token_text dot = codes "."
  token_text comma = codes ","
  token_text dash = codes "-"
  token_text arrow = codes "->"

  -- A blank behind each token.
  unfoldable pub print : QueryCommand → Text
  print c = spaced (map token_text (command_tokens c))

  module _ (ops : TextOps) where
    -- A float with a text that reads as it: digits, a point, and more digits.
    pub record IsFloat (x : ℕ) : Type 0 where
      pub head : ℕ
      pub whole : Text
      pub fraction : Text
      pub spelled : f64_text x ≡ head ∷ (whole ++ b'.' ∷ fraction)
      pub digits : all is_digit (head ∷ whole) ≡ true
      pub more_digits : all is_digit fraction ≡ true
      pub read : ops.parse_f64 (head ∷ (whole ++ b'.' ∷ fraction)) ≡ some x

    -- ASCII strings without quotes, and numbers without a sign.
    abbrev pub IsWritable : Value → Type 0
    IsWritable null = false ≡ true
    IsWritable (boolean b) = Unit
    IsWritable (integer i) = i < 2 ^ 63
    IsWritable (float x) = IsFloat x
    IsWritable (text s) = all (λ c. ltb c 128 && not (c == b'"')) s ≡ true

    abbrev pub AreConditions : List PropertyCondition → Type 0
    AreConditions [] = Unit
    AreConditions (c ∷ cs) = IsName c.key × IsWritable c.value × AreConditions cs

    -- `weight` stands for the weight.
    abbrev pub AreNoWeights : List PropertyCondition → Type 0
    AreNoWeights [] = Unit
    AreNoWeights (c ∷ cs) = (eq_ignore_ascii_case c.key (codes "weight") ≡ false) × AreNoWeights cs

    abbrev pub IsWeight : Option WeightCondition → Type 0
    IsWeight none = Unit
    IsWeight (some w) = IsFloat w.value

    -- A command that CypherLite can write.
    abbrev pub IsCommand : QueryCommand → Type 0
    IsCommand (match_nodes f) = IsLabel f.label × AreConditions f.property_conditions
    IsCommand (match_edges f) =
        IsLabel f.label
        × IsWeight f.weight_condition
        × AreConditions f.property_conditions
        × AreNoWeights f.property_conditions
    IsCommand (QueryCommand.traverse kind start) = IsU64 start
    IsCommand (QueryCommand.shortest_path start goal) = IsU64 start × IsU64 goal
    IsCommand QueryCommand.count_nodes = Unit
    IsCommand QueryCommand.count_edges = Unit
    IsCommand _ = false ≡ true
