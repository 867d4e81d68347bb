-- ===== src/Language/Agree.antt =====
-- The two languages side by side: a command that both can write is the same to the executor.
use ad_graph_db.Base.{arith, ◌≡◌, refl, ◌∙◌, none, some, ℕ}
use ad_graph_db.Core.{
  Text, SyntaxError, empty_query, deserialization_error, syntax_error, GraphError, ok, err,
}
use ad_graph_db.Core.Float.{FloatOps}
use ad_graph_db.Query.Ast.{QueryCommand}
use ad_graph_db.Query.Context.{DatabaseContext}
use ad_graph_db.Query.Executor
use ad_graph_db.Language.Chars.{TextOps}
use ad_graph_db.Language.Simple
use ad_graph_db.Language.Simple.Print as SimplePrint
use ad_graph_db.Language.Simple.RoundTrip.{parse_query-print}
use ad_graph_db.Language.Cypher
use ad_graph_db.Language.Cypher.Lexer.{CharOps, Lex, all_tokens, lex_error, panic, lex}
use ad_graph_db.Language.Cypher.Print as CypherPrint
use ad_graph_db.Language.Cypher.RoundTrip.{parse_only-print}

module _ (ieee : FloatOps) {D : Type 0} (ctx : DatabaseContext D) (d : D) where
  execute-parsed :
      (l : Lex) (c : QueryCommand)
      → Cypher.parse_lexed ieee l ≡ some (ok c)
      → Cypher.run_command ieee ctx d (Cypher.parse_lexed ieee (Cypher.unwrap_or_default l))
        ≡ some (Executor.execute ieee ctx c d)
  execute-parsed (all_tokens tokens) c h = rw h refl
  execute-parsed (lex_error e) c h = ground (arith, h)
  execute-parsed panic c h = ground (arith, h)

  execute-refused :
      (l : Lex) (e : GraphError)
      → Cypher.parse_lexed ieee l ≡ some (err e)
      → (e' : GraphError) × (Cypher.run_command ieee ctx d
            (Cypher.parse_lexed ieee (Cypher.unwrap_or_default l))
          ≡ some (err e', d))
  execute-refused (all_tokens tokens) e h = (e, rw h refl)
  execute-refused (lex_error x) e h =
      (deserialization_error (syntax_error empty_query), unfold Cypher.parse in refl)
  execute-refused panic e h = ground (arith, h)

  panics :
      (l : Lex)
      → Cypher.parse_lexed ieee l ≡ none
      → Cypher.run_command ieee ctx d (Cypher.parse_lexed ieee (Cypher.unwrap_or_default l)) ≡ none
  panics (all_tokens tokens) h = ground (arith, h)
  panics (lex_error e) h = ground (arith, h)
  panics panic h = refl

  module _ (chars : CharOps) (ops : TextOps) where
    -- `execute` runs the command that `parse_only` gives, and where `parse_only` gives an error `execute` gives an
    -- error too, perhaps another, and leaves the database as it was. It panics where `parse_only` does.
    pub execute-parse_only :
        (query : Text)
        → ((c : QueryCommand)
            → Cypher.parse_only ieee chars ops query ≡ some (ok c)
            → Cypher.execute ieee chars ops ctx query d ≡ some (Executor.execute ieee ctx c d))
          × ((e : GraphError)
              → Cypher.parse_only ieee chars ops query ≡ some (err e)
              → (e' : GraphError) × (Cypher.execute ieee chars ops ctx query d ≡ some (err e', d)))
          × (Cypher.parse_only ieee chars ops query ≡ none
              → Cypher.execute ieee chars ops ctx query d ≡ none)
    unfolding Cypher.parse_only Cypher.execute
    execute-parse_only query = (
      execute-parsed (lex chars ops query),
      execute-refused (lex chars ops query),
      panics (lex chars ops query),
    )

    -- What the lexer refuses is reported as an empty query: the reason is lost.
    pub execute-lex_error :
        (query : Text) (e : SyntaxError)
        → lex chars ops query ≡ lex_error e
        → (Cypher.parse_only ieee chars ops query
            ≡ some (err (deserialization_error (syntax_error e))))
          × (Cypher.execute ieee chars ops ctx query d
              ≡ some (err (deserialization_error (syntax_error empty_query)), d))
    unfolding Cypher.parse_only Cypher.execute Cypher.parse
    execute-lex_error query e h = (rw h refl, rw h refl)

    module _ (f64_text : ℕ → Text) where
      -- A command that both languages can write does the same, and answers the same, written in either.
      pub execute_agree :
          (c : QueryCommand)
          → SimplePrint.IsCommand f64_text ops c
          → CypherPrint.IsCommand f64_text ops c
          → Cypher.execute ieee chars ops ctx (CypherPrint.print f64_text c) d
            ≡ some (Simple.execute ops ieee ctx (SimplePrint.print f64_text c) d)
      unfolding Simple.execute
      execute_agree c h k =
          (execute-parse_only (CypherPrint.print f64_text c)).0 c
            (parse_only-print ieee f64_text chars ops c k)
          ∙ rw (parse_query-print f64_text ops c h) refl
