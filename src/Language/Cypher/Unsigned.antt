-- ===== src/Language/Cypher/Unsigned.antt =====
-- The integers that CypherLite's parser reads: what it reads of the tokens keeps their bound.
pub mod Commands
use ad_graph_db.Base.{
  ℕ, zero, suc, ◌<◌, ◌≤◌, ◌^◌, ◌≡◌, refl, sym, List, [], ◌∷◌, ◌++◌, Bool, true, false, Option, none,
  some, length, drop, nat_eq, list_eq, ◌==◌, if◌then◌else◌, Bool-cases, inl, inr, arith,
}
use ad_graph_db.Core.{
  NodeId, Text, Value, integer, float, text, boolean, null, SyntaxError, unexpected_token, Result,
  ok, err,
}
use ad_graph_db.Core.Float.{FloatOps}
use ad_graph_db.Query.Ast.{
  ComparisonOp, bfs, dfs, NodeFilter, EdgeFilter, PropertyCondition, QueryCommand, match_nodes,
  match_edges,
}
use ad_graph_db.Language.Chars.{codes, TextOps, eq_ignore_ascii_case}
use ad_graph_db.Language.Parser.{
  Parser, go_on_with, ◌>>=◌, give, refuse, next_or, repeat, command_of,
}
use ad_graph_db.Language.Cypher.Lexer.{
  Token, keyword, ident, node_ref, string_lit, int_lit, float_lit, bool_lit, eq_sign, not_eq_sign,
  lt_sign, lt_eq_sign, gt_sign, gt_eq_sign, l_paren, r_paren, l_bracket, r_bracket, colon, dot,
  dash, arrow, CharOps, Lex, all_tokens, lex_error, panic, lex,
}
use ad_graph_db.Language.Cypher.Lexer.Unsigned.{IsUnsigned, AreUnsigned, LexUnsigned, lex_bound}
use ad_graph_db.Language.Cypher.{
  peek_keyword, is_keyword, expect_keyword, skip_keyword, expect_token, op_of, parse_op, value_of,
  parse_value_lit, name_of, consume_ident, consume_ident_or_any, optional_name, optional_label,
  parse_node_pattern, parse_rel_pattern, parse_condition, apply_node_condition, weight_of,
  set_weight, apply_edge_condition, optional_where, skip_return_list, returning, parse_node_match,
  parse_rel_match, parse_match, traversal_kind, node_of, parse_node_ref, parse_traverse, parse_path,
  parse_count, parse, parse_lexed, parse_only, is_relationship_pattern,
}

-- An integer that an `i64` holds without a sign.
abbrev pub IsBelow : Value → Type 0
IsBelow (integer i) = i < 2 ^ 63
IsBelow _ = Unit

abbrev pub AreBelow : List PropertyCondition → Type 0
AreBelow [] = Unit
AreBelow (c ∷ cs) = IsBelow c.value × AreBelow cs

-- The integers that the conditions of a command compare with.
abbrev pub CommandBelow : QueryCommand → Type 0
CommandBelow (match_nodes filter) = AreBelow filter.property_conditions
CommandBelow (match_edges filter) = AreBelow filter.property_conditions
CommandBelow _ = Unit

AreBelow-append : (cs ds : List PropertyCondition) → AreBelow cs → AreBelow ds → AreBelow (cs ++ ds)
AreBelow-append [] ds h k = k
AreBelow-append (c ∷ cs) ds (hc, h) k = (hc, AreBelow-append cs ds h k)

AreUnsigned-drop : (tokens : List Token) → AreUnsigned tokens → AreUnsigned (drop 1 tokens)
AreUnsigned-drop [] h = tt
AreUnsigned-drop (t ∷ tokens) (_, h) = h

-- What was parsed is as told, and so are the tokens that are left.
abbrev Given : {A : Type 0} → (A → Type 0) → Result (A × List Token) → Type 0
Given P (ok (a, rest)) = P a × AreUnsigned rest
Given P (err e) = Unit

abbrev Gives : {A : Type 0} → (A → Type 0) → Parser Token A → Type 0
Gives P p = (tokens : List Token) → AreUnsigned tokens → Given P (p tokens)

abbrev Anything : {A : Type 0} → A → Type 0
Anything a = Unit

go_on_with-Given :
    {A B : Type 0} (P : A → Type 0) (Q : B → Type 0) (f : A → Parser Token B)
    (r : Result (A × List Token))
    → Given P r
    → ((a : A) → P a → Gives Q (f a))
    → Given Q (go_on_with f r)
go_on_with-Given P Q f (ok (a, rest)) (ha, hr) k = k a ha rest hr
go_on_with-Given P Q f (err e) h k = tt

bind-Gives :
    {A B : Type 0} (P : A → Type 0) (Q : B → Type 0) (p : Parser Token A) (f : A → Parser Token B)
    → Gives P p
    → ((a : A) → P a → Gives Q (f a))
    → Gives Q (p >>= f)
bind-Gives P Q p f h k tokens ht = go_on_with-Given P Q f (p tokens) (h tokens ht) k

choice-Gives :
    {A : Type 0} (P : A → Type 0) (b : Bool) (p q : Parser Token A)
    → Gives P p
    → Gives P q
    → Gives P (if b then p else q)
choice-Gives P true p q h k = h
choice-Gives P false p q h k = k

choice-Given :
    {A : Type 0} (P : A → Type 0) (b : Bool) (r s : Result (A × List Token))
    → Given P r
    → Given P s
    → Given P (if b then r else s)
choice-Given P true r s h k = h
choice-Given P false r s h k = k

next_or-Gives : (e : SyntaxError) → Gives IsUnsigned (next_or e)
next_or-Gives e [] h = tt
next_or-Gives e (t ∷ tokens) h = h

expect_token-Gives : (wanted : Token) → Gives Anything (expect_token wanted)
unfolding expect_token
expect_token-Gives wanted [] h = tt
expect_token-Gives wanted (t ∷ tokens) (_, h) =
    choice-Gives Anything _ (give tt) (refuse _) (λ rest k. (tt, k)) (λ rest k. tt) tokens h

expect_keyword-Gives : (kw : Text) → Gives Anything (expect_keyword kw)
unfolding expect_keyword
expect_keyword-Gives kw [] h = tt
expect_keyword-Gives kw (t ∷ tokens) (_, h) =
    choice-Gives Anything _ (give tt) (refuse _) (λ rest k. (tt, k)) (λ rest k. tt) tokens h

op_of-Gives : (t : Token) → Gives Anything (op_of t)
op_of-Gives eq_sign tokens h = (tt, h)
op_of-Gives not_eq_sign tokens h = (tt, h)
op_of-Gives lt_sign tokens h = (tt, h)
op_of-Gives lt_eq_sign tokens h = (tt, h)
op_of-Gives gt_sign tokens h = (tt, h)
op_of-Gives gt_eq_sign tokens h = (tt, h)
op_of-Gives _ tokens h = tt

value_of-Gives : (t : Token) → IsUnsigned t → Gives IsBelow (value_of t)
value_of-Gives (string_lit s) small tokens h = (tt, h)
value_of-Gives (int_lit i) small tokens h = (small, h)
value_of-Gives (float_lit x) small tokens h = (tt, h)
value_of-Gives (bool_lit b) small tokens h = (tt, h)
value_of-Gives _ small tokens h = tt

name_of-Gives : (t : Token) → Gives Anything (name_of t)
name_of-Gives (ident s) tokens h = (tt, h)
name_of-Gives _ tokens h = tt

parse_op-Gives : Gives Anything parse_op
unfolding parse_op
parse_op-Gives =
    bind-Gives IsUnsigned Anything (next_or _) op_of (next_or-Gives _) λ t _. op_of-Gives t

parse_value_lit-Gives : Gives IsBelow parse_value_lit
unfolding parse_value_lit
parse_value_lit-Gives =
    bind-Gives IsUnsigned IsBelow (next_or _) value_of (next_or-Gives _) value_of-Gives

consume_ident-Gives : Gives Anything consume_ident
unfolding consume_ident
consume_ident-Gives =
    bind-Gives IsUnsigned Anything (next_or _) name_of (next_or-Gives _) λ t _. name_of-Gives t

consume_ident_or_any-Gives : Gives Anything consume_ident_or_any
unfolding consume_ident_or_any
consume_ident_or_any-Gives =
    bind-Gives IsUnsigned Anything (next_or _) _ (next_or-Gives _) λ t _ tokens h. (tt, h)

parse_condition-Gives : Gives (λ c. IsBelow c.value) parse_condition
unfolding parse_condition
parse_condition-Gives =
    let Below : PropertyCondition → Type 0 = λ c. IsBelow c.value in
    bind-Gives Anything Below _ _ consume_ident_or_any-Gives λ _ _.
      bind-Gives Anything Below _ _ (expect_token-Gives dot) λ _ _.
        bind-Gives Anything Below _ _ consume_ident-Gives λ _ _.
          bind-Gives Anything Below _ _ parse_op-Gives
            λ _ _. bind-Gives IsBelow Below _ _ parse_value_lit-Gives λ v small tokens h. (small, h)
