-- ===== src/Language/Cypher/Lexer/Termination.antt =====
-- Each round of the lexer takes a character.
use ad_graph_db.Base.{
  ℕ, zero, suc, ◌≤◌, ◌≡◌, refl, [], ◌∷◌, ◌++◌, Bool, true, false, not, ◌||◌, Option, none, some,
  length, drop, nat_eq, ◌==◌, if◌then◌else◌, Bool-cases, inl, inr, arith,
}
use ad_graph_db.Core.{Text, SyntaxError, unexpected_character}
use ad_graph_db.Storage.Bytes.{length-drop-le}
use ad_graph_db.Language.Chars.{is_digit, TextOps, parse_i64, parse_u64}
use ad_graph_db.Language.Cypher.Lexer.{
  Token, int_lit, float_lit, Chars, CharOps, Lexed, skipped, lexed, refused, panicked, Lex,
  all_tokens, lex_error, panic, to_chars, lex, take_while, drop_while, operator, one_char,
  starts_number, number_token, reference_token, is_reference, quoted_token, cons_token, next_round,
  if_none, is_whitespace, is_alphabetic, lex_string, digits_token, lex_digits, lex_number,
  word_char, lex_word, lex_one, lex_chars,
}

-- At most `n` characters are left.
abbrev pub LeavesAtMost : ℕ → Lexed → Type 0
LeavesAtMost n (skipped rest) = length rest ≤ n
LeavesAtMost n (lexed t rest) = length rest ≤ n
LeavesAtMost n (refused e) = Unit
LeavesAtMost n panicked = Unit

length-drop_while-le : (p : ℕ → Bool) (cs : Chars) → length (drop_while p cs) ≤ length cs
length-drop_while-le p [] = omega arith
length-drop_while-le p (c ∷ cs) = ground (arith, length-drop_while-le p cs)

quoted_token-leaves :
    (n : ℕ) (s : Text) (cs : Chars) → length cs ≤ n → LeavesAtMost n (quoted_token s cs)
quoted_token-leaves n s [] le = tt
quoted_token-leaves n s (q ∷ cs) le = omega (arith, le)

number_token-leaves :
    (n : ℕ) (token : ℕ → Token) (s : Text) (o : Option ℕ) (rest : Chars)
    → length rest ≤ n
    → LeavesAtMost n (number_token token s o rest)
number_token-leaves n token s none rest le = tt
number_token-leaves n token s (some i) rest le = le

reference_token-leaves :
    (n : ℕ) (o : Option ℕ) (rest : Chars)
    → length rest ≤ n
    → LeavesAtMost n (reference_token o rest)
reference_token-leaves n none rest le = tt
reference_token-leaves n (some i) rest le = le

if_none-leaves :
    (n : ℕ) (o : Option Token) (rest : Chars) (other : Lexed)
    → length rest ≤ n
    → LeavesAtMost n other
    → LeavesAtMost n (if_none o rest other)
if_none-leaves n none rest other le h = h
if_none-leaves n (some t) rest other le h = le

-- What starts a number and is no minus.
pub starts_number_digit :
    (c : ℕ) (cs : Chars) → starts_number c cs ≡ true → (c == b'-') ≡ false → is_digit c ≡ true
starts_number_digit c [] h other = h
starts_number_digit c (d ∷ cs) h other = ground (arith, h, other)

module _ (chars : CharOps) (ops : TextOps) where
  digits_token-leaves :
      (n : ℕ) (whole rest : Chars)
      → length rest ≤ n
      → LeavesAtMost n (digits_token chars ops whole rest)
  digits_token-leaves n whole [] le = number_token-leaves n int_lit whole (parse_i64 whole) [] le
  digits_token-leaves n whole (d ∷ more) le = elim (Bool-cases (d == b'.')) [
    | inl point ↦ rw point (
        number_token-leaves n float_lit _ (ops.parse_f64 (whole ++ d ∷ take_while is_digit more)) _
          (omega (arith, le, length-drop_while-le is_digit more)))
    | inr other ↦ rw other (number_token-leaves n int_lit whole (parse_i64 whole) (d ∷ more) le)
  ]

  lex_number-leaves :
      (c : ℕ) (cs : Chars)
      → starts_number c cs ≡ true
      → LeavesAtMost (length cs) (lex_number chars ops c cs)
  unfolding lex_number lex_digits
  lex_number-leaves c cs h = elim (Bool-cases (c == b'-')) [
    | inl minus ↦ rw minus (
        digits_token-leaves (length cs) (c ∷ take_while is_digit cs) (drop_while is_digit cs)
          (length-drop_while-le is_digit cs))
    | inr other ↦
        rw (other, starts_number_digit c cs h other)
          (digits_token-leaves (length cs) (c ∷ take_while is_digit cs) (drop_while is_digit cs)
            (length-drop_while-le is_digit cs))
  ]

  lex_word-leaves :
      (c : ℕ) (cs : Chars)
      → word_char chars ops c ≡ true
      → LeavesAtMost (length cs) (lex_word chars ops (c ∷ cs))
  unfolding lex_word
  lex_word-leaves c cs h =
      let word = c ∷ take_while (word_char chars ops) cs in
      let rest = drop_while (word_char chars ops) cs in
      let le = length-drop_while-le (word_char chars ops) cs in
      rw h (elim (Bool-cases (is_reference word)) [
        | inl reference ↦
            rw reference (reference_token-leaves (length cs) (parse_u64 (drop 1 word)) rest le)
        | inr other ↦ rw other le
      ])

  -- A number, a word or neither.
  lex_long-leaves :
      (c : ℕ) (cs : Chars)
      → LeavesAtMost (length cs) (
          if starts_number c cs
          then lex_number chars ops c cs
          else if is_alphabetic chars ops c || c == b'_'
          then lex_word chars ops (c ∷ cs)
          else refused (unexpected_character c))
  lex_long-leaves c cs = elim (Bool-cases (starts_number c cs)) [
    | inl number ↦ rw number (lex_number-leaves c cs number)
    | inr other ↦ rw other (elim (Bool-cases (is_alphabetic chars ops c || c == b'_')) [
      | inl letter ↦ rw letter (lex_word-leaves c cs (ground (arith, letter)))
      | inr neither ↦ rw neither tt
    ])
  ]

  -- One round leaves less than it was given.
  lex_one-leaves : (c : ℕ) (cs : Chars) → LeavesAtMost (length cs) (lex_one chars ops c cs)
  unfolding lex_one lex_string
  lex_one-leaves c cs = elim (Bool-cases (is_whitespace chars ops c)) [
    | inl blank ↦ rw blank (omega arith)
    | inr visible ↦ rw visible (elim (Bool-cases (c == b'"')) [
      | inl quote ↦ rw quote (
          quoted_token-leaves (length cs) _ (drop_while (λ d. not (d == b'"')) cs)
            (length-drop_while-le (λ d. not (d == b'"')) cs))
      | inr unquoted ↦ rw unquoted (
          if_none-leaves (length cs) (operator c cs) (drop 1 cs) _
            (omega (arith, length-drop-le 1 cs))
            (if_none-leaves (length cs) (one_char c) cs _ (omega arith) (lex_long-leaves c cs)))
    ])
  ]

  -- A finite run of the lexer's loop, from the characters that are left to its result: no character is
  -- left, or a round refuses or panics, or behind a round that skips or takes comes the run on what it
  -- leaves.
  pub data Runs : Chars → Lex → Type 0 where
    at_end : Runs [] (all_tokens [])
    passed :
        (c : ℕ) (cs rest : Chars) (result : Lex)
        → lex_one chars ops c cs ≡ skipped rest
        → Runs rest result
        → Runs (c ∷ cs) result
    took :
        (c : ℕ) (cs rest : Chars) (t : Token) (result : Lex)
        → lex_one chars ops c cs ≡ lexed t rest
        → Runs rest result
        → Runs (c ∷ cs) (cons_token t result)
    failed :
        (c : ℕ) (cs : Chars) (e : SyntaxError)
        → lex_one chars ops c cs ≡ refused e
        → Runs (c ∷ cs) (lex_error e)
    unwrapped : (c : ℕ) (cs : Chars) → lex_one chars ops c cs ≡ panicked → Runs (c ∷ cs) panic

  behind_round :
      (c : ℕ) (cs : Chars) (lex_rest : Chars → Lex) (r : Lexed)
      → lex_one chars ops c cs ≡ r
      → LeavesAtMost (length cs) r
      → ((rest : Chars) → length rest ≤ length cs → Runs rest (lex_rest rest))
      → Runs (c ∷ cs) (next_round lex_rest r)
  behind_round c cs lex_rest (skipped rest) h le next =
      passed c cs rest (lex_rest rest) h (next rest le)
  behind_round c cs lex_rest (lexed t rest) h le next =
      took c cs rest t (lex_rest rest) h (next rest le)
  behind_round c cs lex_rest (refused e) h le next = failed c cs e h
  behind_round c cs lex_rest panicked h le next = unwrapped c cs h

  lex_chars-Runs : (n : ℕ) (cs : Chars) → length cs ≤ n → Runs cs (lex_chars chars ops n cs)
  unfolding lex_chars
  lex_chars-Runs n [] le = unfold lex_chars in at_end
  lex_chars-Runs zero (c ∷ cs) le = absurd (omega (arith, le))
  lex_chars-Runs (suc n) (c ∷ cs) le =
      behind_round c cs (lex_chars chars ops n) (lex_one chars ops c cs) refl (lex_one-leaves c cs)
        λ rest less. lex_chars-Runs n rest (omega (arith, le, less))

  -- On every input the lexer's loop makes a finite run of rounds and ends, and `lex` returns what that
  -- run ends in, be it the tokens, an error or a panic: its fuel never runs out.
  pub lex-Runs : (input : Text) → Runs (to_chars chars ops input) (lex chars ops input)
  unfolding lex
  lex-Runs input = lex_chars-Runs _ (to_chars chars ops input) (omega arith)
