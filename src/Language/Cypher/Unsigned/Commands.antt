-- ===== src/Language/Cypher/Unsigned/Commands.antt =====
-- The commands of CypherLite, of which no condition has a negative integer.
use ad_graph_db.Base.{
  ℕ, zero, suc, ◌≡◌, sym, List, [], ◌∷◌, Bool, true, false, Option, none, some, length, drop,
  nat_eq, list_eq, if◌then◌else◌, Bool-cases, inl, inr, arith,
}
use ad_graph_db.Core.{Text, SyntaxError, unexpected_token, Result, ok, err}
use ad_graph_db.Core.Float.{FloatOps}
use ad_graph_db.Query.Ast.{
  ComparisonOp, bfs, dfs, NodeFilter, EdgeFilter, QueryCommand, match_nodes, match_edges,
}
use ad_graph_db.Language.Chars.{codes, TextOps, eq_ignore_ascii_case}
use ad_graph_db.Language.Parser.{Parser, give, refuse, next_or, repeat, command_of}
use ad_graph_db.Language.Cypher.Lexer.{
  Token, keyword, ident, node_ref, l_paren, r_paren, l_bracket, r_bracket, colon, dash, arrow,
  CharOps, Lex, all_tokens, lex_error, panic, lex,
}
use ad_graph_db.Language.Cypher.Lexer.Unsigned.{IsUnsigned, AreUnsigned, LexUnsigned, lex_bound}
use ad_graph_db.Language.Cypher.{
  peek_keyword, is_keyword, skip_keyword, consume_ident, optional_name, optional_label,
  parse_node_pattern, parse_rel_pattern, apply_node_condition, weight_of, set_weight,
  apply_edge_condition, optional_where, skip_return_list, returning, parse_node_match,
  parse_rel_match, parse_match, traversal_kind, node_of, parse_node_ref, parse_traverse, parse_path,
  parse_count, parse, parse_lexed, parse_only, is_relationship_pattern,
}
use ad_graph_db.Language.Cypher.Unsigned.{
  IsBelow, AreBelow, CommandBelow, AreBelow-append, AreUnsigned-drop, Given, Gives, Anything,
  go_on_with-Given, bind-Gives, choice-Gives, choice-Given, next_or-Gives, expect_token-Gives,
  expect_keyword-Gives, consume_ident-Gives, parse_condition-Gives,
}

abbrev NodeBelow : NodeFilter → Type 0
NodeBelow f = AreBelow f.property_conditions

abbrev EdgeBelow : EdgeFilter → Type 0
EdgeBelow f = AreBelow f.property_conditions

apply_node_condition-Gives :
    (f : NodeFilter) → NodeBelow f → Gives NodeBelow (apply_node_condition f)
unfolding apply_node_condition
apply_node_condition-Gives f hf =
    bind-Gives (λ c. IsBelow c.value) NodeBelow _ _ parse_condition-Gives
      λ c small tokens h. (AreBelow-append f.property_conditions (c ∷ []) hf (small, tt), h)

set_weight-Gives :
    (f : EdgeFilter) (op : ComparisonOp) (w : Option ℕ)
    → EdgeBelow f
    → Gives EdgeBelow (set_weight f op w)
set_weight-Gives f op none hf tokens h = tt
set_weight-Gives f op (some w) hf tokens h = (hf, h)

apply_edge_condition-Gives :
    (floats : FloatOps) (f : EdgeFilter)
    → EdgeBelow f
    → Gives EdgeBelow (apply_edge_condition floats f)
unfolding apply_edge_condition
apply_edge_condition-Gives floats f hf =
    bind-Gives (λ c. IsBelow c.value) EdgeBelow _ _ parse_condition-Gives
      λ c small.
        choice-Gives EdgeBelow (eq_ignore_ascii_case c.key (codes "weight")) _ _
          (set_weight-Gives f c.op (weight_of floats c.value) hf)
          λ tokens h. (AreBelow-append f.property_conditions (c ∷ []) hf (small, tt), h)

skip_keyword-Gives : (kw : Text) → Gives Anything (skip_keyword kw)
unfolding skip_keyword
skip_keyword-Gives kw tokens h = elim (Bool-cases (peek_keyword kw tokens)) [
  | inl there ↦ rw there (tt, AreUnsigned-drop tokens h)
  | inr other ↦ rw other (tt, h)
]

module _ {F : Type 0} (P : F → Type 0) (apply : F → Parser Token F)
    (applies : (f : F) → P f → Gives P (apply f)) where
  repeat-Gives : (kw : Text) (n : ℕ) (f : F) → P f → Gives P (repeat apply (skip_keyword kw) n f)
  unfolding repeat
  repeat-Gives kw zero f hf tokens h = tt
  repeat-Gives kw (suc n) f hf tokens h =
      bind-Gives P P (apply f) _ (applies f hf)
        (λ g hg. bind-Gives Anything P (skip_keyword kw) _ (skip_keyword-Gives kw) λ again _.
          elim (Bool-cases again) [
            | inl on ↦ rw on (repeat-Gives kw n g hg)
            | inr off ↦ rw off (λ rest k. (hg, k))
          ])
        tokens h

  optional_where-Gives : (f : F) → P f → Gives P (optional_where apply f)
  unfolding optional_where
  optional_where-Gives f hf tokens h = elim (Bool-cases (peek_keyword (codes "WHERE") tokens)) [
    | inl there ↦ rw there (
        repeat-Gives (codes "AND") (length tokens) f hf (drop 1 tokens) (AreUnsigned-drop tokens h))
    | inr other ↦ rw other (hf, h)
  ]

skip_return_list-AreUnsigned :
    (tokens : List Token) → AreUnsigned tokens → AreUnsigned (skip_return_list tokens)
unfolding skip_return_list
skip_return_list-AreUnsigned [] h = tt
skip_return_list-AreUnsigned (keyword k ∷ tokens) h = h
skip_return_list-AreUnsigned (_ ∷ tokens) (_, h) = skip_return_list-AreUnsigned tokens h

returning-Gives :
    (command : QueryCommand) → CommandBelow command → Gives CommandBelow (returning command)
unfolding returning
returning-Gives command hc =
    bind-Gives Anything CommandBelow _ _ (expect_keyword-Gives (codes "RETURN"))
      λ _ _ tokens h. (hc, skip_return_list-AreUnsigned tokens h)

optional_name-Gives : Gives Anything optional_name
unfolding optional_name
optional_name-Gives [] h = (tt, h)
optional_name-Gives (ident s ∷ tokens) (_, h) = (tt, h)
optional_name-Gives (_ ∷ tokens) h = (tt, h)

optional_label-Gives : Gives Anything optional_label
unfolding optional_label
optional_label-Gives [] h = (tt, h)
optional_label-Gives (colon ∷ tokens) (_, h) =
    go_on_with-Given Anything Anything _ (consume_ident tokens) (consume_ident-Gives tokens h)
      λ l _ rest k. (tt, k)
optional_label-Gives (_ ∷ tokens) h = (tt, h)

parse_node_pattern-Gives : Gives Anything parse_node_pattern
unfolding parse_node_pattern
parse_node_pattern-Gives = bind-Gives Anything Anything _ _ (expect_token-Gives l_paren) λ _ _.
    bind-Gives Anything Anything _ _ optional_name-Gives λ _ _.
      bind-Gives Anything Anything _ _ optional_label-Gives
        λ _ _. bind-Gives Anything Anything _ _ (expect_token-Gives r_paren) λ _ _ tokens h. (tt, h)

parse_rel_pattern-Gives : Gives Anything parse_rel_pattern
unfolding parse_rel_pattern
parse_rel_pattern-Gives =
    bind-Gives Anything Anything _ _ optional_name-Gives λ _ _. optional_label-Gives

parse_node_match-Gives : Gives CommandBelow parse_node_match
unfolding parse_node_match
parse_node_match-Gives = bind-Gives Anything CommandBelow _ _ parse_node_pattern-Gives λ pattern' _.
    bind-Gives NodeBelow CommandBelow _ _
      (optional_where-Gives NodeBelow apply_node_condition apply_node_condition-Gives _ tt)
      λ filter below. returning-Gives (match_nodes filter) below

module _ (floats : FloatOps) where
  parse_rel_match-Gives : Gives CommandBelow (parse_rel_match floats)
  unfolding parse_rel_match
  parse_rel_match-Gives = bind-Gives Anything CommandBelow _ _ parse_node_pattern-Gives λ _ _.
      bind-Gives Anything CommandBelow _ _ (expect_token-Gives dash) λ _ _.
        bind-Gives Anything CommandBelow _ _ (expect_token-Gives l_bracket) λ _ _.
          bind-Gives Anything CommandBelow _ _ parse_rel_pattern-Gives λ label _.
            bind-Gives Anything CommandBelow _ _ (expect_token-Gives r_bracket) λ _ _.
              bind-Gives Anything CommandBelow _ _ (expect_token-Gives arrow) λ _ _.
                bind-Gives Anything CommandBelow _ _ parse_node_pattern-Gives λ _ _.
                  bind-Gives EdgeBelow CommandBelow _ _
                    (optional_where-Gives EdgeBelow (apply_edge_condition floats)
                      (apply_edge_condition-Gives floats) _ tt)
                    λ filter below. returning-Gives (match_edges filter) below

  parse_match-Gives : Gives CommandBelow (parse_match floats)
  unfolding parse_match
  parse_match-Gives =
      bind-Gives Anything CommandBelow _ _ (expect_keyword-Gives (codes "MATCH")) λ _ _ tokens h.
        choice-Given CommandBelow (is_relationship_pattern tokens) (parse_rel_match floats tokens)
          (parse_node_match tokens) (parse_rel_match-Gives tokens h)
          (parse_node_match-Gives tokens h)

either-Gives :
    {A : Type 0} (P : A → Type 0) (b c : Bool) (x y : A) (e : SyntaxError)
    → P x
    → P y
    → Gives P (if b then give x else if c then give y else refuse e)
either-Gives P true c x y e hx hy tokens h = (hx, h)
either-Gives P false true x y e hx hy tokens h = (hy, h)
either-Gives P false false x y e hx hy tokens h = tt

traversal_kind-Gives : (t : Token) → Gives Anything (traversal_kind t)
traversal_kind-Gives t =
    either-Gives Anything (is_keyword (codes "BFS") t) (is_keyword (codes "DFS") t) bfs dfs
      unexpected_token tt tt

node_of-Gives : (t : Token) → Gives Anything (node_of t)
node_of-Gives (node_ref id) tokens h = (tt, h)
node_of-Gives _ tokens h = tt

parse_node_ref-Gives : Gives Anything parse_node_ref
unfolding parse_node_ref
parse_node_ref-Gives =
    bind-Gives IsUnsigned Anything (next_or _) node_of (next_or-Gives _) λ t _. node_of-Gives t

parse_traverse-Gives : Gives CommandBelow parse_traverse
unfolding parse_traverse
parse_traverse-Gives =
    bind-Gives Anything CommandBelow _ _ (expect_keyword-Gives (codes "TRAVERSE")) λ _ _.
      bind-Gives IsUnsigned CommandBelow _ _ (next_or-Gives _) λ t _.
        bind-Gives Anything CommandBelow _ _ (traversal_kind-Gives t) λ algo _.
          bind-Gives Anything CommandBelow _ _ (expect_keyword-Gives (codes "FROM")) λ _ _.
            bind-Gives Anything CommandBelow _ _ parse_node_ref-Gives λ start _ tokens h. (tt, h)

parse_path-Gives : Gives CommandBelow parse_path
unfolding parse_path
parse_path-Gives = bind-Gives Anything CommandBelow _ _ (expect_keyword-Gives (codes "PATH")) λ _ _.
    bind-Gives Anything CommandBelow _ _ (expect_keyword-Gives (codes "FROM")) λ _ _.
      bind-Gives Anything CommandBelow _ _ parse_node_ref-Gives λ start _.
        bind-Gives Anything CommandBelow _ _ (expect_keyword-Gives (codes "TO")) λ _ _.
          bind-Gives Anything CommandBelow _ _ parse_node_ref-Gives λ goal _ tokens h. (tt, h)

parse_count-Gives : Gives CommandBelow parse_count
unfolding parse_count
parse_count-Gives =
    bind-Gives Anything CommandBelow _ _ (expect_keyword-Gives (codes "COUNT")) λ _ _.
      bind-Gives IsUnsigned CommandBelow _ _ (next_or-Gives _) λ t _.
        either-Gives CommandBelow (is_keyword (codes "NODES") t) (is_keyword (codes "EDGES") t)
          QueryCommand.count_nodes QueryCommand.count_edges unexpected_token tt tt

parse-Gives : (floats : FloatOps) → Gives CommandBelow (parse floats)
unfolding parse
parse-Gives floats [] h = tt
parse-Gives floats (t ∷ tokens) h =
    let counted =
      choice-Given CommandBelow (is_keyword (codes "COUNT") t) (parse_count (t ∷ tokens))
        (refuse unexpected_token (t ∷ tokens)) (parse_count-Gives (t ∷ tokens) h) tt in
    let pathed =
      choice-Given CommandBelow (is_keyword (codes "PATH") t) (parse_path (t ∷ tokens)) _
        (parse_path-Gives (t ∷ tokens) h) counted in
    let traversed =
      choice-Given CommandBelow (is_keyword (codes "TRAVERSE") t) (parse_traverse (t ∷ tokens)) _
        (parse_traverse-Gives (t ∷ tokens) h) pathed in
    choice-Given CommandBelow (is_keyword (codes "MATCH") t) (parse_match floats (t ∷ tokens)) _
      (parse_match-Gives floats (t ∷ tokens) h) traversed

command_of-Below :
    (r : Result (QueryCommand × List Token)) (command : QueryCommand)
    → Given CommandBelow r
    → command_of r ≡ ok command
    → CommandBelow command
command_of-Below (ok (c, rest)) command (below, _) h =
    let same : c ≡ command = ground (arith, h) in rw (sym same) below
command_of-Below (err e) command given h = absurd (ground (arith, h))

parse_lexed-Below :
    (floats : FloatOps) (l : Lex) (command : QueryCommand)
    → LexUnsigned l
    → parse_lexed floats l ≡ some (ok command)
    → CommandBelow command
parse_lexed-Below floats (all_tokens ts) command unsigned h =
    command_of-Below (parse floats ts) command (parse-Gives floats ts unsigned) (ground (arith, h))
parse_lexed-Below floats (lex_error e) command unsigned h = absurd (ground (arith, h))
parse_lexed-Below floats panic command unsigned h = absurd (ground (arith, h))

-- Whatever the text, in the command that CypherLite reads from it every integer that a condition compares
-- with is below 2 ^ 63: a command cannot compare with a negative integer.
pub parse_only_bound :
    (floats : FloatOps) (chars : CharOps) (ops : TextOps) (input : Text) (command : QueryCommand)
    → parse_only floats chars ops input ≡ some (ok command)
    → CommandBelow command
unfolding parse_only
parse_only_bound floats chars ops input command h =
    parse_lexed-Below floats (lex chars ops input) command (lex_bound chars ops input) h
