-- ===== src/Language/Cypher/Printed.antt =====
-- The tokens that a command is printed as are lexed from their texts.
use ad_graph_db.Base.{
  ℕ, ◌≡◌, refl, List, [], ◌∷◌, ◌++◌, map, true, false, Option, none, some, arith,
}
use ad_graph_db.Core.{Text, Value, null, boolean, integer, float, text}
use ad_graph_db.Query.Ast.{
  ComparisonOp, eq, not_eq, lt, lt_eq, gt, gt_eq, TraversalKind, bfs, dfs, PropertyCondition,
  WeightCondition, QueryCommand, match_nodes, match_edges,
}
use ad_graph_db.Language.Chars.{codes, is_ascii, ascii_upper, to_uppercase, TextOps}
use ad_graph_db.Language.Parser.Between.{between}
use ad_graph_db.Language.Cypher.Lexer.{
  Token, keyword, ident, Chars, CharOps, lexed, lex_one, lex_word, word_token,
}
use ad_graph_db.Language.Cypher.Lexer.Tokens.{Lexes, name-Lexes, node_ref-Lexes, string_lit-Lexes}
use ad_graph_db.Language.Cypher.Lexer.Numbers.{int_lit-Lexes, float_lit-Lexes}
use ad_graph_db.Language.Cypher.Lexer.Spaced.{AllLex, none_left, one_more}
use ad_graph_db.Language.Cypher.Print.{
  op_token, value_token, kind_token, condition_tokens, if_some, where_tokens, label_tokens,
  command_tokens, token_text, IsLabel, IsWritable, AreConditions, IsWeight, IsCommand,
}

module _ (f64_text : ℕ → Text) (chars : CharOps) (ops : TextOps) where
  abbrev AllLexed : List Token → Type 0
  AllLexed = AllLex chars ops (token_text f64_text)

  abbrev IsLexed : Token → Type 0
  IsLexed t = Lexes chars ops (token_text f64_text t) t

  -- A token that is written out.
  written :
      {t : Token} (c : ℕ) (s : Text)
      → token_text f64_text t ≡ c ∷ s
      → is_ascii (c ∷ s) ≡ true
      → ((rest : Chars) → lex_one chars ops c (s ++ b' ' ∷ rest) ≡ lexed t (b' ' ∷ rest))
      → IsLexed t
  written c s spelled ascii reads = record {
    head = c;
    tail = s;
    spelled = spelled;
    ascii = ascii;
    reads = reads;
  }

  op_token-IsLexed : (op : ComparisonOp) → IsLexed (op_token op)
  unfolding lex_one
  op_token-IsLexed eq = written b'=' [] refl refl λ rest. refl
  op_token-IsLexed not_eq = written b'!' (codes "=") refl refl λ rest. refl
  op_token-IsLexed lt = written b'<' [] refl refl λ rest. refl
  op_token-IsLexed lt_eq = written b'<' (codes "=") refl refl λ rest. refl
  op_token-IsLexed gt = written b'>' [] refl refl λ rest. refl
  op_token-IsLexed gt_eq = written b'>' (codes "=") refl refl λ rest. refl

  kind_token-IsLexed : (kind : TraversalKind) → IsLexed (kind_token kind)
  unfolding lex_one lex_word word_token to_uppercase ascii_upper
  kind_token-IsLexed bfs = written b'B' (codes "FS") refl refl λ rest. refl
  kind_token-IsLexed dfs = written b'D' (codes "FS") refl refl λ rest. refl

  value_token-IsLexed : (v : Value) → IsWritable f64_text ops v → IsLexed (value_token v)
  unfolding lex_one lex_word word_token to_uppercase ascii_upper
  value_token-IsLexed null h = ground (arith, h)
  value_token-IsLexed (boolean true) h = written b't' (codes "rue") refl refl λ rest. refl
  value_token-IsLexed (boolean false) h = written b'f' (codes "alse") refl refl λ rest. refl
  value_token-IsLexed (integer i) h = int_lit-Lexes chars ops i h
  value_token-IsLexed (float x) h = float_lit-Lexes chars ops f64_text x h
  value_token-IsLexed (text s) h = string_lit-Lexes chars ops s h

  -- Tokens for each condition are tokens for all.
  data EachLexed : List (List Token) → Type 0 where
    no_condition : EachLexed []
    condition :
        {c : List Token} {cs : List (List Token)} → AllLexed c → EachLexed cs → EachLexed (c ∷ cs)

  append-AllLexed : (xs ys : List Token) → AllLexed xs → AllLexed ys → AllLexed (xs ++ ys)
  append-AllLexed _ ys none_left k = k
  append-AllLexed _ ys (one_more {t} {ts} h hs) k = one_more h (append-AllLexed ts ys hs k)

  append-EachLexed :
      (xs ys : List (List Token)) → EachLexed xs → EachLexed ys → EachLexed (xs ++ ys)
  append-EachLexed _ ys no_condition k = k
  append-EachLexed _ ys (condition {c} {cs} h hs) k = condition h (append-EachLexed cs ys hs k)

  between-AllLexed :
      (cs : List (List Token)) (rest : List Token)
      → EachLexed cs
      → AllLexed rest
      → AllLexed (between (keyword (codes "AND")) cs rest)
  unfolding lex_one lex_word word_token to_uppercase ascii_upper
  between-AllLexed _ rest no_condition k = k
  between-AllLexed _ rest (condition {c} {cs} h hs) k =
      one_more (written b'A' (codes "ND") refl refl λ more. refl) (
        append-AllLexed c (between (keyword (codes "AND")) cs rest) h
          (between-AllLexed cs rest hs k))

  where_tokens-AllLexed :
      (cs : List (List Token)) (rest : List Token)
      → EachLexed cs
      → AllLexed rest
      → AllLexed (where_tokens cs rest)
  unfolding lex_one lex_word word_token to_uppercase ascii_upper
  where_tokens-AllLexed _ rest no_condition k = k
  where_tokens-AllLexed _ rest (condition {c} {cs} h hs) k =
      one_more (written b'W' (codes "HERE") refl refl λ more. refl) (
        append-AllLexed c (between (keyword (codes "AND")) cs rest) h
          (between-AllLexed cs rest hs k))

  label_tokens-AllLexed :
      (l : Option Text) (rest : List Token)
      → IsLabel l
      → AllLexed rest
      → AllLexed (label_tokens l rest)
  unfolding lex_one
  label_tokens-AllLexed none rest h k = k
  label_tokens-AllLexed (some l) rest h k =
      one_more (written b':' [] refl refl λ more. refl) (one_more (name-Lexes chars ops l h) k)

  conditions-EachLexed :
      (var : Text) (cs : List PropertyCondition)
      → IsLexed (ident var)
      → AreConditions f64_text ops cs
      → EachLexed (map (condition_tokens var) cs)
  unfolding lex_one
  conditions-EachLexed var [] v h = no_condition
  conditions-EachLexed var (c ∷ cs) v (k, h, hs) =
      condition
        (one_more v (
          one_more (written b'.' [] refl refl λ more. refl) (
            one_more (name-Lexes chars ops c.key k) (
              one_more (op_token-IsLexed c.op)
                (one_more (value_token-IsLexed c.value h) none_left)))))
        (conditions-EachLexed var cs v hs)

  if_some-EachLexed : (w : Option WeightCondition) → IsWeight f64_text ops w → EachLexed (if_some w)
  unfolding lex_one lex_word word_token to_uppercase ascii_upper
  if_some-EachLexed none h = no_condition
  if_some-EachLexed (some w) h =
      condition
        (one_more (written b'r' [] refl refl λ more. refl) (
          one_more (written b'.' [] refl refl λ more. refl) (
            one_more (written b'w' (codes "eight") refl refl λ more. refl) (
              one_more (op_token-IsLexed w.op)
                (one_more (float_lit-Lexes chars ops f64_text w.value h) none_left)))))
        no_condition

  -- The tokens of a command.
  pub command_tokens-AllLexed :
      (c : QueryCommand) → IsCommand f64_text ops c → AllLexed (command_tokens c)
  unfolding lex_one lex_word word_token to_uppercase ascii_upper
  command_tokens-AllLexed (match_nodes f) (l, cs) =
      let n : IsLexed (ident (codes "n")) = written b'n' [] refl refl λ more. refl in
      one_more (written b'M' (codes "ATCH") refl refl λ more. refl) (
        one_more (written b'(' [] refl refl λ more. refl) (
          one_more n (
            label_tokens-AllLexed f.label _ l (
              one_more (written b')' [] refl refl λ more. refl) (
                where_tokens-AllLexed _ _
                  (conditions-EachLexed (codes "n") f.property_conditions n cs)
                  (one_more (written b'R' (codes "ETURN") refl refl λ more. refl)
                    (one_more n none_left)))))))
  command_tokens-AllLexed (match_edges f) (l, w, cs, ks) =
      let r : IsLexed (ident (codes "r")) = written b'r' [] refl refl λ more. refl in
      one_more (written b'M' (codes "ATCH") refl refl λ more. refl) (
        one_more (written b'(' [] refl refl λ more. refl) (
          one_more (written b')' [] refl refl λ more. refl) (
            one_more (written b'-' [] refl refl λ more. refl) (
              one_more (written b'[' [] refl refl λ more. refl) (
                one_more r (
                  label_tokens-AllLexed f.label _ l (
                    one_more (written b']' [] refl refl λ more. refl) (
                      one_more (written b'-' (codes ">") refl refl λ more. refl) (
                        one_more (written b'(' [] refl refl λ more. refl) (
                          one_more (written b')' [] refl refl λ more. refl) (
                            where_tokens-AllLexed _ _
                              (append-EachLexed _ _ (if_some-EachLexed f.weight_condition w)
                                (conditions-EachLexed (codes "r") f.property_conditions r cs))
                              (one_more (written b'R' (codes "ETURN") refl refl λ more. refl)
                                (one_more r none_left)))))))))))))
  command_tokens-AllLexed (QueryCommand.get_node id) h = none_left
  command_tokens-AllLexed (QueryCommand.get_edge id) h = none_left
  command_tokens-AllLexed (QueryCommand.traverse kind start) h =
      one_more (written b'T' (codes "RAVERSE") refl refl λ more. refl) (
        one_more (kind_token-IsLexed kind) (
          one_more (written b'F' (codes "ROM") refl refl λ more. refl)
            (one_more (node_ref-Lexes chars ops start h) none_left)))
  command_tokens-AllLexed (QueryCommand.shortest_path start goal) (h, k) =
      one_more (written b'P' (codes "ATH") refl refl λ more. refl) (
        one_more (written b'F' (codes "ROM") refl refl λ more. refl) (
          one_more (node_ref-Lexes chars ops start h) (
            one_more (written b'T' (codes "O") refl refl λ more. refl)
              (one_more (node_ref-Lexes chars ops goal k) none_left))))
  command_tokens-AllLexed QueryCommand.count_nodes h =
      one_more (written b'C' (codes "OUNT") refl refl λ more. refl)
        (one_more (written b'N' (codes "ODES") refl refl λ more. refl) none_left)
  command_tokens-AllLexed QueryCommand.count_edges h =
      one_more (written b'C' (codes "OUNT") refl refl λ more. refl)
        (one_more (written b'E' (codes "DGES") refl refl λ more. refl) none_left)
