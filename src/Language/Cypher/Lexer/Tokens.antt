-- ===== src/Language/Cypher/Lexer/Tokens.antt =====
-- That each token is lexed from its text with a blank behind it.
use mathlib.Core.List.{append_assoc}
use ad_graph_db.Base.{
  ℕ, ◌<◌, ◌^◌, ◌≡◌, refl, ap, ◌∙◌, [], ◌∷◌, ◌++◌, map, true, false, not, ◌&&◌, ◌||◌, drop, any, all,
  ltb, nat_eq, list_eq, ◌==◌, if◌then◌else◌, arith,
}
use ad_graph_db.Core.{Text}
use ad_graph_db.Language.Chars.{
  codes, is_ascii, is_digit, ascii_upper, TextOps, to_uppercase, parse_u64,
}
use ad_graph_db.Language.Chars.Decimal.{decimal, decimal-cons, all-decimal, parse_u64-decimal}
use ad_graph_db.Language.Simple.Tokens.{quoted}
use ad_graph_db.Language.Cypher.Print.{IsName, is_name_char, is_reserved}
use ad_graph_db.Language.Cypher.Lexer.{
  Token, keyword, ident, node_ref, string_lit, bool_lit, Chars, CharOps, is_letter, keywords, lexed,
  reference_token, is_reference, is_whitespace, is_alphabetic, lex_string, word_char, word_token,
  lex_word, lex_one,
}
use ad_graph_db.Language.Cypher.Lexer.Characters.{
  take-while_append, drop-while_append, all-weaken, all-append, is_name_char-IsAscii,
  is_digit-IsName, letter-operator, letter-starts_number, letter-one_char, none_of,
}

module _ (chars : CharOps) (ops : TextOps) where
  name_char-IsWord : (c : ℕ) → is_name_char c ≡ true → word_char chars ops c ≡ true
  name_char-IsWord c h = ground (arith, h)

  lex_one-letter :
      (c : ℕ) (cs : Chars)
      → (is_letter c || c == b'_') ≡ true
      → lex_one chars ops c cs ≡ lex_word chars ops (c ∷ cs)
  unfolding lex_one
  lex_one-letter c cs h =
      let no_blank : is_whitespace chars ops c ≡ false = ground (arith, h) in
      let no_quote' : (c == b'"') ≡ false = ground (arith, h) in
      let alphabetic : (is_alphabetic chars ops c || c == b'_') ≡ true = ground (arith, h) in
      rw
        (
          no_blank,
          no_quote',
          letter-operator c cs h,
          letter-one_char c h,
          letter-starts_number c cs h,
          alphabetic,
        )
        refl

  -- A word with a blank behind it.
  lex_word-blank :
      (s rest : Chars)
      → all is_name_char s ≡ true
      → lex_word chars ops (s ++ b' ' ∷ rest) ≡ (
          if is_reference s
          then reference_token (parse_u64 (drop 1 s)) (b' ' ∷ rest)
          else lexed (word_token chars ops s) (b' ' ∷ rest))
  unfolding lex_word
  lex_word-blank s rest h =
      let word = all-weaken is_name_char (word_char chars ops) s name_char-IsWord h in
      let ascii = all-weaken is_name_char (λ c. ltb c 128) s is_name_char-IsAscii h in
      rw
        (
          take-while_append (word_char chars ops) s b' ' rest word refl,
          drop-while_append (word_char chars ops) s b' ' rest word refl,
          ascii,
        )
        refl

  -- The token of a text, with a blank behind it.
  pub record Lexes (s : Text) (t : Token) : Type 0 where
    pub head : ℕ
    pub tail : Text
    pub spelled : s ≡ head ∷ tail
    pub ascii : is_ascii (head ∷ tail) ≡ true
    pub reads :
        (rest : Chars) → lex_one chars ops head (tail ++ b' ' ∷ rest) ≡ lexed t (b' ' ∷ rest)

  word_token-free :
      (s : Text)
      → is_ascii s ≡ true
      → is_reserved (map ascii_upper s) ≡ false
      → word_token chars ops s ≡ ident s
  unfolding word_token
  word_token-free s ascii free =
      let upper : to_uppercase ops s ≡ map ascii_upper s = unfold to_uppercase in rw ascii refl in
      let up = map ascii_upper s in
      rw upper (
        none_of (up == codes "TRUE") (up == codes "FALSE") (any (λ k. k == up) keywords)
          (bool_lit true) (bool_lit false) (keyword up) (ident s) free)

  lex_string-quote :
      (s rest : Chars)
      → all (λ c. not (c == b'"')) s ≡ true
      → is_ascii s ≡ true
      → lex_one chars ops b'"' (s ++ b'"' ∷ rest) ≡ lexed (string_lit s) rest
  unfolding lex_one lex_string
  lex_string-quote s rest plain ascii =
      rw
        (
          take-while_append (λ c. not (c == b'"')) s b'"' rest plain refl,
          drop-while_append (λ c. not (c == b'"')) s b'"' rest plain refl,
          ascii,
        )
        refl

  pub name-Lexes : (s : Text) → IsName s → Lexes s (ident s)
  name-Lexes s h =
      let free =
        word_token-free (h.head ∷ h.tail)
          (all-weaken is_name_char (λ c. ltb c 128) (h.head ∷ h.tail) is_name_char-IsAscii h.word)
          h.free in
      record {
        head = h.head;
        tail = h.tail;
        spelled = h.spelled;
        ascii =
            all-weaken is_name_char (λ c. ltb c 128) (h.head ∷ h.tail) is_name_char-IsAscii h.word;
        reads = λ rest.
            lex_one-letter h.head (h.tail ++ b' ' ∷ rest) h.start
            ∙ lex_word-blank (h.head ∷ h.tail) rest h.word
            ∙ rw (h.no_reference, free, h.spelled) refl;
      }

  pub node_ref-Lexes : (id : ℕ) → id < 2 ^ 64 → Lexes (b'N' ∷ decimal id) (node_ref id)
  node_ref-Lexes id small =
      let (d, t, e, digit) = decimal-cons id in
      let digits = rw e at (all-decimal id) in
      let word : all is_name_char (b'N' ∷ d ∷ t) ≡ true =
        all-weaken is_digit is_name_char (d ∷ t) is_digit-IsName digits in
      rw e (record {
        head = b'N';
        tail = d ∷ t;
        spelled = refl;
        ascii = all-weaken is_name_char (λ c. ltb c 128) (b'N' ∷ d ∷ t) is_name_char-IsAscii word;
        reads = λ rest.
            lex_one-letter b'N' (d ∷ (t ++ b' ' ∷ rest)) refl
            ∙ lex_word-blank (b'N' ∷ d ∷ t) rest word
            ∙ rw (digits, rw e at (parse_u64-decimal id small)) refl;
      })

  pub string_lit-Lexes :
      (s : Text)
      → all (λ c. ltb c 128 && not (c == b'"')) s ≡ true
      → Lexes (quoted s) (string_lit s)
  string_lit-Lexes s h =
      let plain =
        all-weaken (λ c. ltb c 128 && not (c == b'"')) (λ c. not (c == b'"')) s
          (λ c k. ground (arith, k)) h in
      let ascii =
        all-weaken (λ c. ltb c 128 && not (c == b'"')) (λ c. ltb c 128) s (λ c k. ground (arith, k))
          h in
      record {
        head = b'"';
        tail = s ++ b'"' ∷ [];
        spelled = refl;
        ascii = all-append (λ c. ltb c 128) s (b'"' ∷ []) ascii refl;
        reads = λ rest.
            ap (lex_one chars ops b'"') (append_assoc s (b'"' ∷ []) (b' ' ∷ rest))
            ∙ lex_string-quote s (b' ' ∷ rest) plain ascii;
      }
