-- ===== src/Language/Cypher/Lexer/Unsigned.antt =====
-- No integer token is negative: the minus is a token of its own before a number is looked for.
use ad_graph_db.Base.{
  ℕ, list_eq, zero, suc, ◌+◌, ◌-◌, ◌*◌, ◌<◌, ◌≤◌, ◌^◌, ◌≡◌, refl, List, [], ◌∷◌, ◌++◌, Bool, true,
  false, not, ◌||◌, Option, none, some, drop, any, nat_eq, ◌==◌, if◌then◌else◌, Bool-cases, inl,
  inr, arith,
}
use ad_graph_db.Core.{Text, unexpected_character}
use ad_graph_db.Language.Chars.{
  codes, to_uppercase, is_digit, TextOps, parse_i64, parse_u64, scan_digits,
}
use ad_graph_db.Language.Cypher.Lexer.{
  Token, keyword, ident, int_lit, float_lit, bool_lit, Chars, CharOps, Lexed, skipped, lexed,
  refused, panicked, Lex, all_tokens, lex_error, panic, take_while, drop_while, keywords, operator,
  one_char, starts_number, number_token, reference_token, is_reference, quoted_token, cons_token,
  next_round, if_none, is_whitespace, is_alphabetic, collect, lex_string, digits_token, lex_digits,
  lex_number, word_char, word_token, lex_word, lex_one, lex_chars, lex,
}
use ad_graph_db.Language.Cypher.Lexer.Termination.{starts_number_digit}

-- A number is one that an `i64` holds without a sign.
abbrev pub IsUnsigned : Token → Type 0
IsUnsigned (int_lit i) = i < 2 ^ 63
IsUnsigned _ = Unit

abbrev pub AreUnsigned : List Token → Type 0
AreUnsigned [] = Unit
AreUnsigned (t ∷ ts) = IsUnsigned t × AreUnsigned ts

abbrev pub LexUnsigned : Lex → Type 0
LexUnsigned (all_tokens ts) = AreUnsigned ts
LexUnsigned _ = Unit

abbrev LexedUnsigned : Lexed → Type 0
LexedUnsigned (lexed t rest) = IsUnsigned t
LexedUnsigned _ = Unit

abbrev OptionUnsigned : Option Token → Type 0
OptionUnsigned none = Unit
OptionUnsigned (some t) = IsUnsigned t

-- The digits are checked against the greatest value.
scan_digits_bound :
    (max : ℕ) (s : Text) (n i : ℕ) → n ≤ max → scan_digits max s n ≡ some i → i ≤ max
unfolding scan_digits
scan_digits_bound max [] n i le h = ground (arith, h, le)
scan_digits_bound max (c ∷ s) n i le h =
    ground (arith, h, scan_digits_bound max s (n * 10 + (c - b'0')) i)

parse_i64_bound :
    (c : ℕ) (s : Text) (i : ℕ) → is_digit c ≡ true → parse_i64 (c ∷ s) ≡ some i → i < 2 ^ 63
unfolding parse_i64
parse_i64_bound c s i digit h =
    let no_plus : (c == b'+') ≡ false = ground (arith, digit) in
    let no_minus : (c == b'-') ≡ false = ground (arith, digit) in
    let read = rw (no_plus, no_minus) at h in
    omega (arith, scan_digits_bound (2 ^ 63 - 1) (c ∷ s) 0 i (omega arith) read)

number_token-unsigned :
    (s : Text) (o : Option ℕ) (rest : Chars)
    → ((i : ℕ) → o ≡ some i → i < 2 ^ 63)
    → LexedUnsigned (number_token int_lit s o rest)
number_token-unsigned s none rest h = tt
number_token-unsigned s (some i) rest h = h i refl

float_token-unsigned :
    (s : Text) (o : Option ℕ) (rest : Chars) → LexedUnsigned (number_token float_lit s o rest)
float_token-unsigned s none rest = tt
float_token-unsigned s (some x) rest = tt

reference_token-unsigned : (o : Option ℕ) (rest : Chars) → LexedUnsigned (reference_token o rest)
reference_token-unsigned none rest = tt
reference_token-unsigned (some id) rest = tt

quoted_token-unsigned : (s : Text) (cs : Chars) → LexedUnsigned (quoted_token s cs)
quoted_token-unsigned s [] = tt
quoted_token-unsigned s (q ∷ cs) = tt

if_none-unsigned :
    (o : Option Token) (rest : Chars) (other : Lexed)
    → OptionUnsigned o
    → (o ≡ none → LexedUnsigned other)
    → LexedUnsigned (if_none o rest other)
if_none-unsigned none rest other h k = k refl
if_none-unsigned (some t) rest other h k = h

operator-unsigned : (c : ℕ) (cs : Chars) → OptionUnsigned (operator c cs)
operator-unsigned c [] = tt
operator-unsigned c (d ∷ cs) = ground arith

one_char-unsigned : (c : ℕ) → OptionUnsigned (one_char c)
one_char-unsigned c = ground arith

no_minus : (c : ℕ) → one_char c ≡ none → (c == b'-') ≡ false
no_minus c h = ground (arith, h)

choice-IsUnsigned :
    (a b c : Bool) (x y z w : Token)
    → IsUnsigned x
    → IsUnsigned y
    → IsUnsigned z
    → IsUnsigned w
    → IsUnsigned (if a then x else if b then y else if c then z else w)
choice-IsUnsigned a b c x y z w h k l m = ground (arith, h, k, l, m)

module _ (chars : CharOps) (ops : TextOps) where
  digits_token-unsigned :
      (c : ℕ) (whole rest : Chars)
      → is_digit c ≡ true
      → LexedUnsigned (digits_token chars ops (c ∷ whole) rest)
  digits_token-unsigned c whole [] h =
      number_token-unsigned (c ∷ whole) (parse_i64 (c ∷ whole)) [] λ i. parse_i64_bound c whole i h
  digits_token-unsigned c whole (d ∷ more) h = elim (Bool-cases (d == b'.')) [
    | inl point ↦
        rw point
          (float_token-unsigned _ (ops.parse_f64 (c ∷ (whole ++ d ∷ take_while is_digit more))) _)
    | inr other ↦ rw other (
        number_token-unsigned (c ∷ whole) (parse_i64 (c ∷ whole)) (d ∷ more)
          λ i. parse_i64_bound c whole i h)
  ]

  word_token-IsUnsigned : (word : Text) → IsUnsigned (word_token chars ops word)
  unfolding word_token
  word_token-IsUnsigned word =
      let up = to_uppercase ops word in
      choice-IsUnsigned (up == codes "TRUE") (up == codes "FALSE") (any (λ k. k == up) keywords)
        (bool_lit true) (bool_lit false) (keyword up) (ident word) tt tt tt tt

  lex_word-unsigned : (cs : Chars) → LexedUnsigned (lex_word chars ops cs)
  unfolding lex_word
  lex_word-unsigned cs =
      let word = take_while (word_char chars ops) cs in
      elim (Bool-cases (is_reference word)) [
        | inl reference ↦ rw reference (reference_token-unsigned (parse_u64 (drop 1 word)) _)
        | inr other ↦ rw other (word_token-IsUnsigned (collect chars ops word))
      ]

  lex_long-unsigned :
      (c : ℕ) (cs : Chars)
      → (c == b'-') ≡ false
      → LexedUnsigned (
          if starts_number c cs
          then lex_number chars ops c cs
          else if is_alphabetic chars ops c || c == b'_'
          then lex_word chars ops (c ∷ cs)
          else refused (unexpected_character c))
  unfolding lex_number lex_digits
  lex_long-unsigned c cs minus = elim (Bool-cases (starts_number c cs)) [
    | inl number ↦
        let digit = starts_number_digit c cs number minus in
        rw number (
          rw (minus, digit)
            (digits_token-unsigned c (take_while is_digit cs) (drop_while is_digit cs) digit))
    | inr other ↦ rw other (elim (Bool-cases (is_alphabetic chars ops c || c == b'_')) [
      | inl letter ↦ rw letter (lex_word-unsigned (c ∷ cs))
      | inr neither ↦ rw neither tt
    ])
  ]

  lex_one-unsigned : (c : ℕ) (cs : Chars) → LexedUnsigned (lex_one chars ops c cs)
  unfolding lex_one lex_string
  lex_one-unsigned c cs = elim (Bool-cases (is_whitespace chars ops c)) [
    | inl blank ↦ rw blank tt
    | inr visible ↦ rw visible (elim (Bool-cases (c == b'"')) [
      | inl quote ↦ rw quote (quoted_token-unsigned _ (drop_while (λ d. not (d == b'"')) cs))
      | inr unquoted ↦ rw unquoted (
          if_none-unsigned (operator c cs) (drop 1 cs) _ (operator-unsigned c cs) λ none_two.
            if_none-unsigned (one_char c) cs _ (one_char-unsigned c)
              λ none_one. lex_long-unsigned c cs (no_minus c none_one))
    ])
  ]

  cons_token-unsigned :
      (t : Token) (l : Lex) → IsUnsigned t → LexUnsigned l → LexUnsigned (cons_token t l)
  cons_token-unsigned t (all_tokens ts) h k = (h, k)
  cons_token-unsigned t (lex_error e) h k = tt
  cons_token-unsigned t panic h k = tt

  next_round-unsigned :
      (f : Chars → Lex) (r : Lexed)
      → ((rest : Chars) → LexUnsigned (f rest))
      → LexedUnsigned r
      → LexUnsigned (next_round f r)
  next_round-unsigned f (skipped rest) h k = h rest
  next_round-unsigned f (lexed t rest) h k = cons_token-unsigned t (f rest) k (h rest)
  next_round-unsigned f (refused e) h k = tt
  next_round-unsigned f panicked h k = tt

  lex_chars-unsigned : (fuel : ℕ) (cs : Chars) → LexUnsigned (lex_chars chars ops fuel cs)
  unfolding lex_chars
  lex_chars-unsigned fuel [] = unfold lex_chars in tt
  lex_chars-unsigned zero (c ∷ cs) = tt
  lex_chars-unsigned (suc fuel) (c ∷ cs) =
      next_round-unsigned (lex_chars chars ops fuel) (lex_one chars ops c cs)
        (λ rest. lex_chars-unsigned fuel rest) (lex_one-unsigned c cs)

  -- Every integer among the tokens of a query is below 2 ^ 63.
  pub lex_bound : (input : Text) → LexUnsigned (lex chars ops input)
  unfolding lex
  lex_bound input = lex_chars-unsigned _ _
