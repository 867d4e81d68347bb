-- ===== src/Tests/Parsing.antt =====
-- Queries in both languages.
use ad_graph_db.Base.{ℕ, ◌≡◌, refl, List, [], ◌∷◌, none, some, false, arith}
use ad_graph_db.Core.{Text, integer, text, ok, err, GraphError}
use ad_graph_db.Query.Ast.{lt, gt, eq, NodeFilter, EdgeFilter, match_edges, QueryCommand}
use ad_graph_db.Query.Executor.{execute}
use ad_graph_db.Language.Chars.{
  codes, parse_i64, scan_digits, TextOps, ascii_upper, ascii_lower, eq_ignore_ascii_case,
}
use ad_graph_db.Language.Chars.Decimal.{decimal, decimal_i64, digits_onto}
use ad_graph_db.Language.Simple.Tokens.{spaced}
use ad_graph_db.Language.Simple as SimpleQuery
use ad_graph_db.Language.Simple.Print as SimplePrint
use ad_graph_db.Language.Simple.RoundTrip.{parse_query-print}
use ad_graph_db.Language.Simple.Termination.{filter_chain-Runs}
use ad_graph_db.Language.Parser.Runs.{Runs}
use ad_graph_db.Language.Parser.{repeat}
use ad_graph_db.Language.Cypher.Termination.{where-Runs}
use ad_graph_db.Language.Cypher as CypherLite
use ad_graph_db.Language.Cypher.Lexer.{
  Token, keyword, ident, dot, eq_sign, CharOps, lex, lex_chars, lex_one, lex_number, lex_digits,
  all_tokens, int_lit, dash,
}
use ad_graph_db.Language.Cypher.Lexer.Termination.{lex-Runs}
use ad_graph_db.Language.Cypher.Lexer.Termination
use ad_graph_db.Language.Cypher.Unsigned.{CommandBelow}
use ad_graph_db.Language.Cypher.Unsigned.Commands.{parse_only_bound}
use ad_graph_db.Language.Cypher.Print as CypherPrint
use ad_graph_db.Language.Cypher.RoundTrip.{parse_only-print}
use ad_graph_db.Language.Agree.{execute-parse_only, execute_agree}
use ad_graph_db.Tests.Query.{whole, listed}

-- Every float reads as one and a half, whose pattern is 1 here.
abbrev ascii_only : TextOps
ascii_only = record { unicode_upper = λ s. s; unicode_lower = λ s. s; parse_f64 = λ s. some 1 }

abbrev no_unicode : CharOps
no_unicode = record {
  unicode_whitespace = λ c. false;
  unicode_alphabetic = λ c. false;
  unicode_numeric = λ c. false;
  decoded = λ s. s;
  encoded = λ cs. cs;
}

abbrev one_and_a_half : ℕ → Text
one_and_a_half x = codes "1.5"

-- Edges that are called RAIL, lighter than a weight, red and with more than three stops.
abbrev rails : QueryCommand
rails = match_edges (record {
  label = some (codes "RAIL");
  weight_condition = some (record { op = lt; value = 1 });
  property_conditions =
      record { key = codes "line"; op = eq; value = text (codes "deep red") }
      ∷ record { key = codes "stops"; op = gt; value = integer 3 }
      ∷ [];
})

-- They are written as one expects.
simple_text :
    SimplePrint.print one_and_a_half rails
    ≡ codes
        "MATCH EDGE WHERE label = \"RAIL\" AND weight < 1.5 AND props.line = \"deep red\" AND props.stops > 3 "
unfolding SimplePrint.print spaced decimal_i64 decimal digits_onto
simple_text = refl

cypher_text :
    CypherPrint.print one_and_a_half rails
    ≡ codes
        "MATCH ( ) - [ r : RAIL ] -> ( ) WHERE r . weight < 1.5 AND r . line = \"deep red\" AND r . stops > 3 RETURN r "
unfolding CypherPrint.print spaced decimal digits_onto
cypher_text = refl

simple-IsFloat : SimplePrint.IsFloat one_and_a_half ascii_only 1
simple-IsFloat = record {
  head = b'1';
  tail = codes ".5";
  spelled = refl;
  numeric = refl;
  plain = refl;
  dotted = refl;
  read = refl;
}

cypher-IsFloat : CypherPrint.IsFloat one_and_a_half ascii_only 1
cypher-IsFloat = record {
  head = b'1';
  whole = [];
  fraction = codes "5";
  spelled = refl;
  digits = refl;
  more_digits = refl;
  read = refl;
}

simple_rails : SimplePrint.IsCommand one_and_a_half ascii_only rails
simple_rails = (
  refl,
  simple-IsFloat,
  (
    record { key_plain = refl; key_ascii = refl; writable = refl },
    (record { key_plain = refl; key_ascii = refl; writable = omega arith }, tt),
  ),
)

cypher_rails : CypherPrint.IsCommand one_and_a_half ascii_only rails
unfolding ascii_upper ascii_lower eq_ignore_ascii_case
cypher_rails = (
  record {
    head = b'R';
    tail = codes "AIL";
    spelled = refl;
    start = refl;
    word = refl;
    no_reference = refl;
    free = refl;
  },
  cypher-IsFloat,
  (
    record {
      head = b'l';
      tail = codes "ine";
      spelled = refl;
      start = refl;
      word = refl;
      no_reference = refl;
      free = refl;
    },
    refl,
    (
      record {
        head = b's';
        tail = codes "tops";
        spelled = refl;
        start = refl;
        word = refl;
        no_reference = refl;
        free = refl;
      },
      omega arith,
      tt,
    ),
  ),
  (refl, (refl, tt)),
)

parse_query-print_example :
    SimpleQuery.parse_query ascii_only (SimplePrint.print one_and_a_half rails) ≡ ok rails
parse_query-print_example = parse_query-print one_and_a_half ascii_only rails simple_rails

parse_only-print_example :
    CypherLite.parse_only whole no_unicode ascii_only (CypherPrint.print one_and_a_half rails)
    ≡ some (ok rails)
parse_only-print_example =
    parse_only-print whole one_and_a_half no_unicode ascii_only rails cypher_rails

execute_agree_example :
    CypherLite.execute whole no_unicode ascii_only listed
      (CypherPrint.print one_and_a_half rails)
      []
    ≡ some (SimpleQuery.execute ascii_only whole listed (SimplePrint.print one_and_a_half rails) [])
execute_agree_example =
    execute_agree whole listed [] no_unicode ascii_only one_and_a_half rails simple_rails
      cypher_rails

-- A condition on the label, and one that is cut off.
abbrev cut_off : List Text
cut_off = codes "label" ∷ codes "=" ∷ codes "\"RAIL\"" ∷ codes "AND" ∷ codes "props.stops" ∷ []

filter_chain-Runs_example :
    ((f : NodeFilter)
      → Runs
          (SimpleQuery.apply_node_condition ascii_only)
          (SimpleQuery.skip_keyword (codes "AND"))
          f
          cut_off
          (SimpleQuery.filter_chain (SimpleQuery.apply_node_condition ascii_only) 6 f cut_off))
    × ((f : EdgeFilter)
        → Runs
            (SimpleQuery.apply_edge_condition ascii_only)
            (SimpleQuery.skip_keyword (codes "AND"))
            f
            cut_off
            (SimpleQuery.filter_chain (SimpleQuery.apply_edge_condition ascii_only) 6 f cut_off))
filter_chain-Runs_example = filter_chain-Runs ascii_only 6 cut_off (omega arith)

-- A condition, and the word behind it without another.
abbrev no_condition : List Token
no_condition =
    ident (codes "n") ∷ dot ∷ ident (codes "a") ∷ eq_sign ∷ int_lit 5 ∷ keyword (codes "AND") ∷ []

where-Runs_example :
    ((f : NodeFilter)
      → Runs CypherLite.apply_node_condition
          (CypherLite.skip_keyword (codes "AND"))
          f
          no_condition
          (repeat CypherLite.apply_node_condition
            (CypherLite.skip_keyword (codes "AND"))
            7
            f
            no_condition))
    × ((f : EdgeFilter)
        → Runs
            (CypherLite.apply_edge_condition whole)
            (CypherLite.skip_keyword (codes "AND"))
            f
            no_condition
            (repeat
              (CypherLite.apply_edge_condition whole)
              (CypherLite.skip_keyword (codes "AND"))
              7
              f
              no_condition))
where-Runs_example = where-Runs whole 7 no_condition (omega arith)

lex-Runs_example :
    Termination.Runs no_unicode ascii_only
      (codes "COUNT NODES")
      (lex no_unicode ascii_only (codes "COUNT NODES"))
lex-Runs_example = lex-Runs no_unicode ascii_only (codes "COUNT NODES")

-- The minus is a token of its own.
minus_five : lex no_unicode ascii_only (codes "-5") ≡ all_tokens (dash ∷ int_lit 5 ∷ [])
unfolding lex lex_chars lex_one lex_number lex_digits parse_i64 scan_digits
minus_five = refl

parse_only_bound_example : CommandBelow rails
parse_only_bound_example =
    parse_only_bound whole no_unicode ascii_only (CypherPrint.print one_and_a_half rails) rails
      (parse_only-print whole one_and_a_half no_unicode ascii_only rails cypher_rails)

execute-parse_only_example :
    ((c : QueryCommand)
      → CypherLite.parse_only whole no_unicode ascii_only (codes "COUNT NODES") ≡ some (ok c)
      → CypherLite.execute whole no_unicode ascii_only listed (codes "COUNT NODES") []
        ≡ some (execute whole listed c []))
    × ((e : GraphError)
        → CypherLite.parse_only whole no_unicode ascii_only (codes "COUNT NODES") ≡ some (err e)
        → (e' : GraphError) × (CypherLite.execute whole no_unicode ascii_only listed
              (codes "COUNT NODES")
              []
            ≡ some (err e', [])))
    × (CypherLite.parse_only whole no_unicode ascii_only (codes "COUNT NODES") ≡ none
        → CypherLite.execute whole no_unicode ascii_only listed (codes "COUNT NODES") [] ≡ none)
execute-parse_only_example =
    execute-parse_only whole listed [] no_unicode ascii_only (codes "COUNT NODES")
