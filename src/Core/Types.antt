-- ===== src/Core/Types.antt =====
-- Values, nodes, edges and errors (src/core/value.rs, node.rs, edge.rs, error.rs).
use ad_graph_db.Base.{ℕ, Bool, List}

abbrev pub NodeId : Type 0
NodeId = ℕ

abbrev pub EdgeId : Type 0
EdgeId = ℕ

-- The UTF-8 bytes of a Rust `String`.
abbrev pub Text : Type 0
Text = List ℕ

pub data Value : Type 0 where
  null : Value
  boolean : Bool → Value
  integer : ℕ → Value
  float : ℕ → Value
  text : Text → Value

abbrev pub Properties : Type 0
Properties = List (Text × Value)

pub record Node : Type 0 where
  pub id : NodeId
  pub label : Text
  pub properties : Properties

pub record Edge : Type 0 where
  pub id : EdgeId
  pub source : NodeId
  pub target : NodeId
  pub label : Text
  pub weight : ℕ
  pub properties : Properties

-- What the message of a query language's parser says: `expected` and `end_expecting` carry what was
-- looked for, the others the text that was found. The end of input is `end_expecting []` where the message
-- names nothing.
pub data SyntaxError : Type 0 where
  end_expecting : Text → SyntaxError
  expected : Text → Text → SyntaxError
  unknown_word : Text → SyntaxError
  unknown_field : Text → SyntaxError
  unknown_operator : Text → SyntaxError
  label_needs_equals : SyntaxError
  not_a_number : Text → SyntaxError
  not_quoted : Text → SyntaxError
  unterminated_string : Text → SyntaxError
  not_a_reference : Text → SyntaxError
  empty_query : SyntaxError
  unexpected_token : SyntaxError
  unexpected_character : ℕ → SyntaxError
  weight_needs_number : SyntaxError

-- What the text of a `DeserializationError` reports; `invalid_json` carries the number of the line.
pub data Reason : Type 0 where
  end_of_file : Reason
  invalid_utf8 : Reason
  unknown_value_tag : ℕ → Reason
  unknown_record_type : ℕ → Reason
  invalid_magic : Reason
  unsupported_version : ℕ → Reason
  syntax_error : SyntaxError → Reason
  invalid_json : ℕ → Reason

pub data GraphError : Type 0 where
  node_not_found : NodeId → GraphError
  edge_not_found : EdgeId → GraphError
  duplicate_node : NodeId → GraphError
  duplicate_edge : EdgeId → GraphError
  storage_io : Text → GraphError
  serialization_error : Text → GraphError
  deserialization_error : Reason → GraphError

pub data Result {ℓ} (A : Type ℓ) : Type ℓ where
  ok : A → Result A
  err : GraphError → Result A
