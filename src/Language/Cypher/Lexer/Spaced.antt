-- ===== src/Language/Cypher/Lexer/Spaced.antt =====
-- The lexer takes apart what was put together with a blank behind each token.
use ad_graph_db.Base.{
  ℕ, zero, suc, ◌≤◌, ◌≡◌, refl, ap, ◌∙◌, List, [], ◌∷◌, ◌++◌, map, true, length, length-append, ltb,
  arith,
}
use ad_graph_db.Core.{Text}
use ad_graph_db.Language.Chars.{is_ascii, TextOps}
use ad_graph_db.Language.Simple.Tokens.{spaced}
use ad_graph_db.Language.Cypher.Lexer.{
  Token, Chars, CharOps, all_tokens, cons_token, lex_one, lex_chars, lex,
}
use ad_graph_db.Language.Cypher.Lexer.Characters.{all-append}
use ad_graph_db.Language.Cypher.Lexer.Tokens.{Lexes}

module _ (chars : CharOps) (ops : TextOps) (token_text : Token → Text) where
  -- Every token is lexed from its text.
  pub data AllLex : List Token → Type 0 where
    none_left : AllLex []
    one_more :
        {t : Token} {ts : List Token}
        → Lexes chars ops (token_text t) t
        → AllLex ts
        → AllLex (t ∷ ts)

  spaced_ascii : (ts : List Token) → AllLex ts → is_ascii (spaced (map token_text ts)) ≡ true
  unfolding spaced
  spaced_ascii _ none_left = refl
  spaced_ascii _ (one_more {t} {ts} h hs) =
      all-append (λ c. ltb c 128) (token_text t) (b' ' ∷ spaced (map token_text ts))
        (rw h.spelled h.ascii) (spaced_ascii ts hs)

  -- A token is not empty.
  long :
      (t : Token)
      → Lexes chars ops (token_text t) t
      → (rest : Chars) → suc (suc (length rest)) ≤ length (token_text t ++ b' ' ∷ rest)
  long t h rest = rw h.spelled (omega (arith, length-append h.tail (b' ' ∷ rest)))

  lex_chars-token :
      (t : Token) (fuel : ℕ) (rest : Chars)
      → Lexes chars ops (token_text t) t
      → lex_chars chars ops (suc (suc fuel)) (token_text t ++ b' ' ∷ rest)
        ≡ cons_token t (lex_chars chars ops fuel rest)
  unfolding lex_chars
  lex_chars-token t fuel rest h = rw h.spelled (rw (h.reads rest) (unfold lex_one in refl))

  lex_chars-spaced :
      (ts : List Token) (fuel : ℕ)
      → AllLex ts
      → length (spaced (map token_text ts)) ≤ fuel
      → lex_chars chars ops fuel (spaced (map token_text ts)) ≡ all_tokens ts
  unfolding spaced
  lex_chars-spaced _ fuel none_left le = unfold lex_chars in refl
  lex_chars-spaced _ zero (one_more {t} {ts} h hs) le =
      absurd (omega (arith, le, length-append (token_text t) (b' ' ∷ spaced (map token_text ts))))
  lex_chars-spaced _ (suc zero) (one_more {t} {ts} h hs) le =
      absurd (omega (arith, long t h (spaced (map token_text ts)), le))
  lex_chars-spaced _ (suc (suc fuel)) (one_more {t} {ts} h hs) le =
      lex_chars-token t fuel (spaced (map token_text ts)) h
      ∙ ap (cons_token t)
          (lex_chars-spaced ts fuel hs (omega (arith, long t h (spaced (map token_text ts)), le)))

  -- Texts of tokens, with a blank behind each, are taken apart into the tokens.
  pub lex-spaced :
      (ts : List Token) → AllLex ts → lex chars ops (spaced (map token_text ts)) ≡ all_tokens ts
  unfolding lex
  lex-spaced ts h =
      rw (spaced_ascii ts h)
        (lex_chars-spaced ts (length (spaced (map token_text ts))) h (omega arith))
