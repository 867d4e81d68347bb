-- ===== src/Language/Simple/Printed.antt =====
-- What a command is printed as are tokens.
use ad_graph_db.Base.{
  ℕ, ◌-◌, ◌^◌, ◌≡◌, refl, List, [], ◌∷◌, ◌++◌, map, true, false, ◌&&◌, not, Option, none, some, all,
  nat_eq, ◌==◌, Bool-cases, inl, inr, ltb, arith,
}
use ad_graph_db.Core.{Text, Value, null, boolean, integer, float, text}
use ad_graph_db.Query.Ast.{
  ComparisonOp, eq, not_eq, lt, lt_eq, gt, gt_eq, bfs, dfs, PropertyCondition, WeightCondition,
  QueryCommand, match_nodes, match_edges,
}
use ad_graph_db.Language.Chars.{codes, is_digit, TextOps}
use ad_graph_db.Language.Chars.Decimal.{decimal, decimal_i64, decimal-cons, all-decimal}
use ad_graph_db.Language.Simple.{quote, is_blank}
use ad_graph_db.Language.Parser.Between.{between}
use ad_graph_db.Language.Simple.Tokens.{
  is_plain, IsToken, word, literal, AreTokens, none_left, one_more,
}
use ad_graph_db.Language.Simple.Print.{
  op_token, reference_token, value_token, where_tokens, label_tokens, weight_tokens,
  property_tokens, if_some, command_tokens, IsLabel, IsFloat, IsWritable, AreConditions, IsWeight,
  IsCommand,
}

digits-IsPlain : (s : Text) → all is_digit s ≡ true → is_plain s ≡ true
digits-IsPlain [] h = refl
digits-IsPlain (c ∷ s) h = ground (arith, digits-IsPlain s)

decimal-IsPlain : (n : ℕ) → is_plain (decimal n) ≡ true
decimal-IsPlain n = digits-IsPlain (decimal n) (all-decimal n)

decimal-IsToken : (n : ℕ) → IsToken (decimal n)
decimal-IsToken n = let (d, t, e, _) = decimal-cons n in rw e (word (rw e at (decimal-IsPlain n)))

reference-IsToken :
    (letter id : ℕ)
    → (not (letter == quote) && not (is_blank letter)) ≡ true
    → IsToken (reference_token letter id)
reference-IsToken letter id h = word (ground (arith, h, decimal-IsPlain id))

decimal_i64-IsToken : (n : ℕ) → IsToken (decimal_i64 n)
unfolding decimal_i64
decimal_i64-IsToken n = elim (Bool-cases (ltb n (2 ^ 63))) [
  | inl positive ↦ rw positive (decimal-IsToken n)
  | inr negative ↦ rw negative (word (decimal-IsPlain (2 ^ 64 - n)))
]

op_token-IsToken : (op : ComparisonOp) → IsToken (op_token op)
op_token-IsToken eq = word refl
op_token-IsToken not_eq = word refl
op_token-IsToken lt = word refl
op_token-IsToken lt_eq = word refl
op_token-IsToken gt = word refl
op_token-IsToken gt_eq = word refl

-- Tokens for each condition are tokens for all.
data EachTokens : List (List Text) → Type 0 where
  no_condition : EachTokens []
  condition :
      {c : List Text} {cs : List (List Text)} → AreTokens c → EachTokens cs → EachTokens (c ∷ cs)

append-AreTokens : (xs ys : List Text) → AreTokens xs → AreTokens ys → AreTokens (xs ++ ys)
append-AreTokens _ ys none_left k = k
append-AreTokens _ ys (one_more {t} {ts} h hs) k = one_more h (append-AreTokens ts ys hs k)

append-EachTokens :
    (xs ys : List (List Text)) → EachTokens xs → EachTokens ys → EachTokens (xs ++ ys)
append-EachTokens _ ys no_condition k = k
append-EachTokens _ ys (condition {c} {cs} h hs) k = condition h (append-EachTokens cs ys hs k)

between-AreTokens :
    (cs : List (List Text)) → EachTokens cs → AreTokens (between (codes "AND") cs [])
between-AreTokens _ no_condition = none_left
between-AreTokens _ (condition {c} {cs} h hs) =
    one_more (word refl)
      (append-AreTokens c (between (codes "AND") cs []) h (between-AreTokens cs hs))

where_tokens-AreTokens : (cs : List (List Text)) → EachTokens cs → AreTokens (where_tokens cs)
where_tokens-AreTokens _ no_condition = none_left
where_tokens-AreTokens _ (condition {c} {cs} h hs) =
    one_more (word refl)
      (append-AreTokens c (between (codes "AND") cs []) h (between-AreTokens cs hs))

label-EachTokens : (l : Option Text) → IsLabel l → EachTokens (if_some label_tokens l)
label-EachTokens none h = no_condition
label-EachTokens (some l) h =
    condition (one_more (word refl) (one_more (word refl) (one_more (literal l h) none_left)))
      no_condition

module _ (f64_text : ℕ → Text) (ops : TextOps) where
  float-IsToken : (x : ℕ) → IsFloat f64_text ops x → IsToken (f64_text x)
  float-IsToken x h = rw h.spelled (word h.plain)

  value-IsToken : (v : Value) → IsWritable f64_text ops v → IsToken (value_token f64_text v)
  value-IsToken null h = word refl
  value-IsToken (boolean true) h = word refl
  value-IsToken (boolean false) h = word refl
  value-IsToken (integer i) h = decimal_i64-IsToken i
  value-IsToken (float x) h = float-IsToken x h
  value-IsToken (text s) h = literal s h

  properties-EachTokens :
      (cs : List PropertyCondition)
      → AreConditions f64_text ops cs
      → EachTokens (map (property_tokens f64_text) cs)
  properties-EachTokens [] h = no_condition
  properties-EachTokens (c ∷ cs) (h, hs) =
      condition
        (one_more (word h.key_plain) (
          one_more (op_token-IsToken c.op) (one_more (value-IsToken c.value h.writable) none_left)))
        (properties-EachTokens cs hs)

  weight-EachTokens :
      (w : Option WeightCondition)
      → IsWeight f64_text ops w
      → EachTokens (if_some (weight_tokens f64_text) w)
  weight-EachTokens none h = no_condition
  weight-EachTokens (some w) h =
      condition
        (one_more (word refl)
          (one_more (op_token-IsToken w.op) (one_more (float-IsToken w.value h) none_left)))
        no_condition

  -- The tokens of a command are words without blanks and quotes, and quoted texts.
  pub command_tokens-AreTokens :
      (c : QueryCommand) → IsCommand f64_text ops c → AreTokens (command_tokens f64_text c)
  command_tokens-AreTokens (match_nodes f) (l, cs) = one_more (word refl) (
      one_more (word refl) (
        where_tokens-AreTokens _ (
          append-EachTokens _ _ (label-EachTokens f.label l)
            (properties-EachTokens f.property_conditions cs))))
  command_tokens-AreTokens (match_edges f) (l, w, cs) = one_more (word refl) (
      one_more (word refl) (
        where_tokens-AreTokens _ (
          append-EachTokens _ _ (label-EachTokens f.label l) (
            append-EachTokens _ _ (weight-EachTokens f.weight_condition w)
              (properties-EachTokens f.property_conditions cs)))))
  command_tokens-AreTokens (QueryCommand.get_node id) h =
      one_more (word refl)
        (one_more (word refl) (one_more (reference-IsToken b'N' id refl) none_left))
  command_tokens-AreTokens (QueryCommand.get_edge id) h =
      one_more (word refl)
        (one_more (word refl) (one_more (reference-IsToken b'E' id refl) none_left))
  command_tokens-AreTokens (QueryCommand.traverse bfs start) h = one_more (word refl) (
      one_more (word refl)
        (one_more (word refl) (one_more (reference-IsToken b'N' start refl) none_left)))
  command_tokens-AreTokens (QueryCommand.traverse dfs start) h = one_more (word refl) (
      one_more (word refl)
        (one_more (word refl) (one_more (reference-IsToken b'N' start refl) none_left)))
  command_tokens-AreTokens (QueryCommand.shortest_path start goal) h = one_more (word refl) (
      one_more (word refl) (
        one_more (reference-IsToken b'N' start refl)
          (one_more (word refl) (one_more (reference-IsToken b'N' goal refl) none_left))))
  command_tokens-AreTokens QueryCommand.count_nodes h =
      one_more (word refl) (one_more (word refl) none_left)
  command_tokens-AreTokens QueryCommand.count_edges h =
      one_more (word refl) (one_more (word refl) none_left)
