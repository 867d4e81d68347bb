-- ===== src/Language/Cypher/Lexer.antt =====
-- The lexer of src/query/languages/cypher_lite.rs. Its loop recurs on fuel; the number of characters is
-- enough, since each round takes one. The number of a node reference is unwrapped: `panicked` is that panic.
pub mod Characters
pub mod Tokens
pub mod Numbers
pub mod Spaced
pub mod Termination
pub mod Unsigned
use ad_graph_db.Base.{
  ℕ, zero, suc, List, [], ◌∷◌, ◌++◌, Bool, true, false, not, ◌&&◌, ◌||◌, Option, none, some, length,
  drop, any, all, leb, ltb, nat_eq, list_eq, ◌==◌, if◌then◌else◌,
}
use ad_graph_db.Core.{Text, SyntaxError, not_a_number, unterminated_string, unexpected_character}
use ad_graph_db.Language.Chars.{
  codes, is_ascii, is_digit, TextOps, to_uppercase, parse_u64, parse_i64,
}

pub data Token : Type 0 where
  keyword : Text → Token
  ident : Text → Token
  node_ref : ℕ → Token
  string_lit : Text → Token
  int_lit : ℕ → Token
  float_lit : ℕ → Token
  bool_lit : Bool → Token
  eq_sign : Token
  not_eq_sign : Token
  lt_sign : Token
  lt_eq_sign : Token
  gt_sign : Token
  gt_eq_sign : Token
  l_paren : Token
  r_paren : Token
  l_bracket : Token
  r_bracket : Token
  colon : Token
  dot : Token
  comma : Token
  dash : Token
  arrow : Token

-- The code points of a text.
abbrev pub Chars : Type 0
Chars = List ℕ

-- What Unicode's tables say of characters that are not ASCII, and the texts of which they are part.
pub record CharOps : Type 0 where
  pub unicode_whitespace : ℕ → Bool
  pub unicode_alphabetic : ℕ → Bool
  pub unicode_numeric : ℕ → Bool
  pub decoded : Text → Chars
  pub encoded : Chars → Text

abbrev pub is_letter : ℕ → Bool
is_letter c = (leb b'a' c && leb c b'z') || (leb b'A' c && leb c b'Z')

abbrev pub keywords : List Text
keywords =
    codes "MATCH"
    ∷ codes "WHERE"
    ∷ codes "RETURN"
    ∷ codes "AND"
    ∷ codes "TRAVERSE"
    ∷ codes "PATH"
    ∷ codes "FROM"
    ∷ codes "TO"
    ∷ codes "COUNT"
    ∷ codes "NODES"
    ∷ codes "EDGES"
    ∷ codes "BFS"
    ∷ codes "DFS"
    ∷ []

abbrev pub take_while : (ℕ → Bool) → Chars → Chars
take_while p [] = []
take_while p (c ∷ cs) = let more = take_while p cs in if p c then c ∷ more else []

abbrev pub drop_while : (ℕ → Bool) → Chars → Chars
drop_while p [] = []
drop_while p (c ∷ cs) = let more = drop_while p cs in if p c then more else c ∷ cs

abbrev pub two_chars : ℕ → ℕ → Option Token
two_chars c d =
    if d == b'='
    then if c == b'!'
      then some not_eq_sign
      else if c == b'<'
      then some lt_eq_sign
      else if c == b'>'
      then some gt_eq_sign
      else none
    else if c == b'-' && d == b'>'
    then some arrow
    else none

-- The operators of two characters, where there are two.
abbrev pub operator : ℕ → Chars → Option Token
operator c [] = none
operator c (d ∷ cs) = two_chars c d

abbrev pub one_char : ℕ → Option Token
one_char c =
    if c == b'('
    then some l_paren
    else if c == b')'
    then some r_paren
    else if c == b'['
    then some l_bracket
    else if c == b']'
    then some r_bracket
    else if c == b':'
    then some colon
    else if c == b'.'
    then some dot
    else if c == b','
    then some comma
    else if c == b'-'
    then some dash
    else if c == b'='
    then some eq_sign
    else if c == b'<'
    then some lt_sign
    else if c == b'>'
    then some gt_sign
    else none

-- What one round of the loop of `lex` does.
pub data Lexed : Type 0 where
  skipped : Chars → Lexed
  lexed : Token → Chars → Lexed
  refused : SyntaxError → Lexed
  panicked : Lexed

-- What `lex` returns: `panic` is no result, that of the unwrap or of no fuel.
pub data Lex : Type 0 where
  all_tokens : List Token → Lex
  lex_error : SyntaxError → Lex
  panic : Lex

abbrev pub starts_number : ℕ → Chars → Bool
starts_number c [] = is_digit c
starts_number c (d ∷ cs) = is_digit c || (c == b'-' && is_digit d)

abbrev pub number_token : (ℕ → Token) → Text → Option ℕ → Chars → Lexed
number_token token s none rest = refused (not_a_number s)
number_token token s (some n) rest = lexed (token n) rest

abbrev pub reference_token : Option ℕ → Chars → Lexed
reference_token none rest = panicked
reference_token (some id) rest = lexed (node_ref id) rest

-- `N` with digits behind it.
abbrev pub is_reference : Chars → Bool
is_reference [] = false
is_reference (c ∷ []) = false
is_reference (c ∷ d ∷ cs) = c == b'N' && all is_digit (d ∷ cs)

abbrev pub quoted_token : Text → Chars → Lexed
quoted_token s [] = refused (unterminated_string s)
quoted_token s (q ∷ rest) = lexed (string_lit s) rest

abbrev pub cons_token : Token → Lex → Lex
cons_token t (all_tokens ts) = all_tokens (t ∷ ts)
cons_token t (lex_error e) = lex_error e
cons_token t panic = panic

abbrev pub next_round : (Chars → Lex) → Lexed → Lex
next_round lex_rest (skipped rest) = lex_rest rest
next_round lex_rest (lexed t rest) = cons_token t (lex_rest rest)
next_round lex_rest (refused e) = lex_error e
next_round lex_rest panicked = panic

abbrev pub if_none : Option Token → Chars → Lexed → Lexed
if_none none rest other = other
if_none (some t) rest other = lexed t rest

module _ (chars : CharOps) (ops : TextOps) where
  abbrev pub is_whitespace : ℕ → Bool
  is_whitespace c =
      if ltb c 128 then c == b' ' || (leb 9 c && leb c 13) else chars.unicode_whitespace c

  abbrev pub is_alphabetic : ℕ → Bool
  is_alphabetic c = if ltb c 128 then is_letter c else chars.unicode_alphabetic c

  abbrev pub is_alphanumeric : ℕ → Bool
  is_alphanumeric c =
      if ltb c 128
      then is_letter c || is_digit c
      else chars.unicode_alphabetic c || chars.unicode_numeric c

  abbrev pub to_chars : Text → Chars
  to_chars s = if is_ascii s then s else chars.decoded s

  abbrev pub collect : Chars → Text
  collect cs = if all (λ c. ltb c 128) cs then cs else chars.encoded cs

  unfoldable pub lex_string : Chars → Lexed
  lex_string cs =
      quoted_token (collect (take_while (λ c. not (c == b'"')) cs))
        (drop_while (λ c. not (c == b'"')) cs)

  -- What the digits and what is behind them make.
  abbrev pub digits_token : Chars → Chars → Lexed
  digits_token whole [] = number_token int_lit whole (parse_i64 whole) []
  digits_token whole (d ∷ more) =
      let s = whole ++ d ∷ take_while is_digit more in
      if d == b'.'
      then number_token float_lit s (ops.parse_f64 s) (drop_while is_digit more)
      else number_token int_lit whole (parse_i64 whole) (d ∷ more)

  unfoldable pub lex_digits : Chars → Chars → Lexed
  lex_digits sign cs = digits_token (sign ++ take_while is_digit cs) (drop_while is_digit cs)

  unfoldable pub lex_number : ℕ → Chars → Lexed
  lex_number c cs = if c == b'-' then lex_digits (c ∷ []) cs else lex_digits [] (c ∷ cs)

  abbrev pub word_char : ℕ → Bool
  word_char c = is_alphanumeric c || c == b'_'

  unfoldable pub word_token : Text → Token
  word_token word =
      let up = to_uppercase ops word in
      if up == codes "TRUE"
      then bool_lit true
      else if up == codes "FALSE"
      then bool_lit false
      else if any (λ k. k == up) keywords
      then keyword up
      else ident word

  unfoldable pub lex_word : Chars → Lexed
  lex_word cs =
      let word = take_while word_char cs in
      let rest = drop_while word_char cs in
      if is_reference word
      then reference_token (parse_u64 (drop 1 word)) rest
      else lexed (word_token (collect word)) rest

  unfoldable pub lex_one : ℕ → Chars → Lexed
  lex_one c cs =
      if is_whitespace c
      then skipped cs
      else if c == b'"'
      then lex_string cs
      else if_none (operator c cs) (drop 1 cs) (
          if_none (one_char c) cs (
            if starts_number c cs
            then lex_number c cs
            else if is_alphabetic c || c == b'_'
            then lex_word (c ∷ cs)
            else refused (unexpected_character c)))

  unfoldable pub lex_chars : ℕ → Chars → Lex
  lex_chars fuel [] = all_tokens []
  lex_chars zero (c ∷ cs) = panic
  lex_chars (suc fuel) (c ∷ cs) = next_round (lex_chars fuel) (lex_one c cs)

  unfoldable pub lex : Text → Lex
  lex input = let cs = to_chars input in lex_chars (length cs) cs
