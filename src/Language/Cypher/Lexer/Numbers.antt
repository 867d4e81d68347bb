-- ===== src/Language/Cypher/Lexer/Numbers.antt =====
-- That a number is lexed from its text with a blank behind it.
use mathlib.Core.List.{append_assoc}
use ad_graph_db.Base.{
  ℕ, ◌<◌, ◌^◌, ◌≡◌, refl, ap, ◌∙◌, [], ◌∷◌, ◌++◌, true, false, some, all, ltb, nat_eq, list_eq,
  ◌==◌, arith,
}
use ad_graph_db.Core.{Text}
use ad_graph_db.Language.Chars.{is_digit, TextOps, parse_i64}
use ad_graph_db.Language.Chars.Decimal.{
  decimal, decimal-cons, all-decimal, parse_i64-decimal_i64, decimal_i64,
}
use ad_graph_db.Language.Cypher.Print.{IsFloat, is_name_char}
use ad_graph_db.Language.Cypher.Lexer.{
  int_lit, float_lit, Chars, CharOps, lexed, is_whitespace, lex_digits, lex_number, lex_one,
}
use ad_graph_db.Language.Cypher.Lexer.Characters.{
  take-while_append, drop-while_append, all-weaken, all-append, is_name_char-IsAscii,
  is_digit-IsName, digit-operator, digit-starts_number, digit-one_char,
}
use ad_graph_db.Language.Cypher.Lexer.Tokens.{Lexes}

parse_i64-decimal : (i : ℕ) → i < 2 ^ 63 → parse_i64 (decimal i) ≡ some i
parse_i64-decimal i small =
    let positive : ltb i (2 ^ 63) ≡ true = ground (arith, small) in
    let spelled : decimal_i64 i ≡ decimal i = unfold decimal_i64 in rw positive refl in
    rw spelled at (parse_i64-decimal_i64 i (omega (arith, small)))

module _ (chars : CharOps) (ops : TextOps) where
  lex_one-digit :
      (c : ℕ) (cs : Chars)
      → is_digit c ≡ true
      → lex_one chars ops c cs ≡ lex_digits chars ops [] (c ∷ cs)
  unfolding lex_one lex_number
  lex_one-digit c cs h =
      let no_blank : is_whitespace chars ops c ≡ false = ground (arith, h) in
      let no_quote' : (c == b'"') ≡ false = ground (arith, h) in
      let no_minus : (c == b'-') ≡ false = ground (arith, h) in
      rw
        (
          no_blank,
          no_quote',
          digit-operator c cs h,
          digit-one_char c h,
          digit-starts_number c cs h,
          no_minus,
        )
        refl

  lex_digits-whole :
      (s rest : Chars) (i : ℕ)
      → all is_digit s ≡ true
      → parse_i64 s ≡ some i
      → lex_digits chars ops [] (s ++ b' ' ∷ rest) ≡ lexed (int_lit i) (b' ' ∷ rest)
  unfolding lex_digits
  lex_digits-whole s rest i h read =
      rw
        (
          take-while_append is_digit s b' ' rest h refl,
          drop-while_append is_digit s b' ' rest h refl,
          read,
        )
        refl

  lex_digits-point :
      (s more rest : Chars) (x : ℕ)
      → all is_digit s ≡ true
      → all is_digit more ≡ true
      → ops.parse_f64 (s ++ b'.' ∷ more) ≡ some x
      → lex_digits chars ops [] (s ++ b'.' ∷ (more ++ b' ' ∷ rest))
        ≡ lexed (float_lit x) (b' ' ∷ rest)
  unfolding lex_digits
  lex_digits-point s more rest x h k read =
      rw
        (
          take-while_append is_digit s b'.' (more ++ b' ' ∷ rest) h refl,
          drop-while_append is_digit s b'.' (more ++ b' ' ∷ rest) h refl,
        )
        (rw
          (
            take-while_append is_digit more b' ' rest k refl,
            drop-while_append is_digit more b' ' rest k refl,
            read,
          )
          refl)

  pub int_lit-Lexes : (i : ℕ) → i < 2 ^ 63 → Lexes chars ops (decimal i) (int_lit i)
  int_lit-Lexes i small =
      let (d, t, e, digit) = decimal-cons i in
      let digits = rw e at (all-decimal i) in
      let word = all-weaken is_digit is_name_char (d ∷ t) is_digit-IsName digits in
      rw e (record {
        head = d;
        tail = t;
        spelled = refl;
        ascii = all-weaken is_name_char (λ c. ltb c 128) (d ∷ t) is_name_char-IsAscii word;
        reads = λ rest.
            lex_one-digit d (t ++ b' ' ∷ rest) digit
            ∙ lex_digits-whole (d ∷ t) rest i digits (rw e at (parse_i64-decimal i small));
      })

  pub float_lit-Lexes :
      (f64_text : ℕ → Text) (x : ℕ)
      → IsFloat f64_text ops x
      → Lexes chars ops (f64_text x) (float_lit x)
  float_lit-Lexes f64_text x h =
      let word = all-weaken is_digit is_name_char (h.head ∷ h.whole) is_digit-IsName h.digits in
      let more_word = all-weaken is_digit is_name_char h.fraction is_digit-IsName h.more_digits in
      let ascii =
        all-weaken is_name_char (λ c. ltb c 128) (h.head ∷ h.whole) is_name_char-IsAscii word in
      let more_ascii =
        all-weaken is_name_char (λ c. ltb c 128) h.fraction is_name_char-IsAscii more_word in
      let digit : is_digit h.head ≡ true = ground (arith, h.digits) in
      record {
        head = h.head;
        tail = h.whole ++ b'.' ∷ h.fraction;
        spelled = h.spelled;
        ascii = all-append (λ c. ltb c 128) (h.head ∷ h.whole) (b'.' ∷ h.fraction) ascii more_ascii;
        reads = λ rest.
            ap (lex_one chars ops h.head) (append_assoc h.whole (b'.' ∷ h.fraction) (b' ' ∷ rest))
            ∙ lex_one-digit h.head (h.whole ++ b'.' ∷ (h.fraction ++ b' ' ∷ rest)) digit
            ∙ lex_digits-point (h.head ∷ h.whole) h.fraction rest x h.digits h.more_digits h.read;
      }
