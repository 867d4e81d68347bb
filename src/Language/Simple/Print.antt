-- ===== src/Language/Simple/Print.antt =====
-- The commands in SimpleQuery, as the grammar at the head of src/query/languages/simple.rs writes them. The text
-- of a float is a parameter; what it must be is a condition on the command.
use ad_graph_db.Base.{
  ℕ, ◌<◌, ◌^◌, ◌≡◌, List, [], ◌∷◌, ◌++◌, map, true, false, ◌||◌, Option, none, some, any, nat_eq,
  ◌==◌,
}
use ad_graph_db.Core.{Text, Value, null, boolean, integer, float, text, IsU64}
use ad_graph_db.Query.Ast.{
  ComparisonOp, eq, not_eq, lt, lt_eq, gt, gt_eq, TraversalKind, bfs, dfs, PropertyCondition,
  WeightCondition, QueryCommand, match_nodes, match_edges,
}
use ad_graph_db.Language.Chars.{codes, is_digit, is_ascii, TextOps}
use ad_graph_db.Language.Chars.Decimal.{decimal, decimal_i64}
use ad_graph_db.Language.Parser.Between.{between}
use ad_graph_db.Language.Simple.Tokens.{no_quote, is_plain, quoted, spaced}

abbrev pub op_token : ComparisonOp → Text
op_token eq = codes "="
op_token not_eq = codes "!="
op_token lt = codes "<"
op_token lt_eq = codes "<="
op_token gt = codes ">"
op_token gt_eq = codes ">="

abbrev pub kind_token : TraversalKind → Text
kind_token bfs = codes "BFS"
kind_token dfs = codes "DFS"

abbrev pub reference_token : ℕ → ℕ → Text
reference_token letter id = letter ∷ decimal id

-- The conditions behind `WHERE`, with `AND` between them.
abbrev pub where_tokens : List (List Text) → List Text
where_tokens [] = []
where_tokens (c ∷ cs) = codes "WHERE" ∷ (c ++ between (codes "AND") cs [])

abbrev pub label_tokens : Text → List Text
label_tokens l = codes "label" ∷ codes "=" ∷ quoted l ∷ []

abbrev pub if_some : {A : Type 0} → (A → List Text) → Option A → List (List Text)
if_some print none = []
if_some print (some a) = print a ∷ []

abbrev pub IsLabel : Option Text → Type 0
IsLabel none = Unit
IsLabel (some l) = no_quote l ≡ true

module _ (f64_text : ℕ → Text) where
  abbrev pub value_token : Value → Text
  value_token null = codes "null"
  value_token (boolean true) = codes "true"
  value_token (boolean false) = codes "false"
  value_token (integer i) = decimal_i64 i
  value_token (float x) = f64_text x
  value_token (text s) = quoted s

  abbrev pub property_tokens : PropertyCondition → List Text
  property_tokens c = (codes "props." ++ c.key) ∷ op_token c.op ∷ value_token c.value ∷ []

  abbrev pub weight_tokens : WeightCondition → List Text
  weight_tokens w = codes "weight" ∷ op_token w.op ∷ f64_text w.value ∷ []

  abbrev pub command_tokens : QueryCommand → List Text
  command_tokens (match_nodes f) =
      codes "MATCH"
      ∷ codes "NODE"
      ∷ where_tokens (if_some label_tokens f.label ++ map property_tokens f.property_conditions)
  command_tokens (match_edges f) =
      codes "MATCH"
      ∷ codes "EDGE"
      ∷ where_tokens (
          if_some label_tokens f.label
          ++ (if_some weight_tokens f.weight_condition
              ++ map property_tokens f.property_conditions))
  command_tokens (QueryCommand.get_node id) =
      codes "GET" ∷ codes "NODE" ∷ reference_token b'N' id ∷ []
  command_tokens (QueryCommand.get_edge id) =
      codes "GET" ∷ codes "EDGE" ∷ reference_token b'E' id ∷ []
  command_tokens (QueryCommand.traverse kind start) =
      codes "TRAVERSE" ∷ kind_token kind ∷ codes "FROM" ∷ reference_token b'N' start ∷ []
  command_tokens (QueryCommand.shortest_path start goal) =
      codes "PATH"
      ∷ codes "FROM"
      ∷ reference_token b'N' start
      ∷ codes "TO"
      ∷ reference_token b'N' goal
      ∷ []
  command_tokens QueryCommand.count_nodes = codes "COUNT" ∷ codes "NODES" ∷ []
  command_tokens QueryCommand.count_edges = codes "COUNT" ∷ codes "EDGES" ∷ []

  unfoldable pub print : QueryCommand → Text
  print c = spaced (command_tokens c)

  module _ (ops : TextOps) where
    -- A float with a text that reads as it: digits with a point, perhaps behind a minus.
    pub record IsFloat (x : ℕ) : Type 0 where
      pub head : ℕ
      pub tail : Text
      pub spelled : f64_text x ≡ head ∷ tail
      pub numeric : (is_digit head || head == b'-') ≡ true
      pub plain : is_plain (head ∷ tail) ≡ true
      pub dotted : any (λ c. c == b'.') (head ∷ tail) ≡ true
      pub read : ops.parse_f64 (head ∷ tail) ≡ some x

    -- Strings without quotes, and numbers of their width.
    abbrev pub IsWritable : Value → Type 0
    IsWritable null = Unit
    IsWritable (boolean b) = Unit
    IsWritable (integer i) = i < 2 ^ 64
    IsWritable (float x) = IsFloat x
    IsWritable (text s) = no_quote s ≡ true

    -- The key of an ASCII identifier.
    pub record IsCondition (c : PropertyCondition) : Type 0 where
      pub key_plain : is_plain c.key ≡ true
      pub key_ascii : is_ascii c.key ≡ true
      pub writable : IsWritable c.value

    abbrev pub AreConditions : List PropertyCondition → Type 0
    AreConditions [] = Unit
    AreConditions (c ∷ cs) = IsCondition c × AreConditions cs

    abbrev pub IsWeight : Option WeightCondition → Type 0
    IsWeight none = Unit
    IsWeight (some w) = IsFloat w.value

    -- A command that SimpleQuery can write.
    abbrev pub IsCommand : QueryCommand → Type 0
    IsCommand (match_nodes f) = IsLabel f.label × AreConditions f.property_conditions
    IsCommand (match_edges f) =
        IsLabel f.label × IsWeight f.weight_condition × AreConditions f.property_conditions
    IsCommand (QueryCommand.get_node id) = IsU64 id
    IsCommand (QueryCommand.get_edge id) = IsU64 id
    IsCommand (QueryCommand.traverse kind start) = IsU64 start
    IsCommand (QueryCommand.shortest_path start goal) = IsU64 start × IsU64 goal
    IsCommand QueryCommand.count_nodes = Unit
    IsCommand QueryCommand.count_edges = Unit
