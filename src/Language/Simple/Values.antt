-- ===== src/Language/Simple/Values.antt =====
-- That the operators, values and references of a command are read back from their tokens.
use ad_graph_db.Base.{
  ℕ, ◌-◌, ◌<◌, ◌≤◌, ◌^◌, ◌≡◌, refl, ap, ◌∙◌, List, [], ◌∷◌, ◌++◌, true, false, ◌||◌, length,
  length-append, any, all, ltb, nat_eq, nat_beq_iff, ◌==◌, if◌then◌else◌, Bool-cases, inl, inr,
  arith,
}
use ad_graph_db.Storage.Bytes.{take-append}
use ad_graph_db.Core.{Text, Value, null, boolean, integer, float, text, not_a_number, ok}
use ad_graph_db.Query.Ast.{ComparisonOp, eq, not_eq, lt, lt_eq, gt, gt_eq}
use ad_graph_db.Language.Chars.{
  codes, is_digit, ascii_lower, eq_ignore_ascii_case, starts_with, ends_with_byte, TextOps,
  parse_i64,
}
use ad_graph_db.Language.Chars.Decimal.{
  decimal, decimal_i64, decimal-cons, all-decimal, parse_u64-decimal, parse_i64-decimal_i64,
}
use ad_graph_db.Language.Parser.{Parser, give, ◌>>=◌}
use ad_graph_db.Language.Simple.{
  quote, parse_op, unquoted, is_quoted, parse_string_lit, number_or, parse_ref, parse_value_lit,
}
use ad_graph_db.Language.Simple.Tokens.{quoted}
use ad_graph_db.Language.Simple.Print.{op_token, reference_token, value_token, IsFloat, IsWritable}

pub parse_op-op_token :
    (op : ComparisonOp) (rest : List Text) → parse_op (op_token op ∷ rest) ≡ ok (op, rest)
unfolding parse_op
parse_op-op_token eq rest = refl
parse_op-op_token not_eq rest = refl
parse_op-op_token lt rest = refl
parse_op-op_token lt_eq rest = refl
parse_op-op_token gt rest = refl
parse_op-op_token gt_eq rest = refl

ends_with_byte-append : (b c : ℕ) (s : Text) → ends_with_byte b (c ∷ (s ++ b ∷ [])) ≡ true
ends_with_byte-append b c [] = (nat_beq_iff b b).1 refl
ends_with_byte-append b c (d ∷ s) = ends_with_byte-append b d s

pub is_quoted-quoted : (s : Text) → is_quoted (quoted s) ≡ true
is_quoted-quoted s =
    ground (arith, ends_with_byte-append quote quote s, length-append s (quote ∷ []))

pub unquoted-quoted : (s : Text) → unquoted (quoted s) ≡ s
unquoted-quoted s =
    let size : length (quoted s) - 2 ≡ length s = omega (arith, length-append s (quote ∷ [])) in
    rw size (take-append s (quote ∷ []))

pub parse_string_lit-quoted :
    (s : Text) (rest : List Text) → parse_string_lit (quoted s ∷ rest) ≡ ok (s, rest)
unfolding parse_string_lit
parse_string_lit-quoted s rest =
    rw (is_quoted-quoted s) (ap (λ u. ok (u, rest)) (unquoted-quoted s))

pub parse_ref-reference_token :
    (letter id : ℕ) (rest : List Text)
    → id < 2 ^ 64
    → parse_ref letter (reference_token letter id ∷ rest) ≡ ok (id, rest)
unfolding parse_ref
parse_ref-reference_token letter id rest small =
    rw ((nat_beq_iff letter letter).1 refl, parse_u64-decimal id small) refl

-- What begins with a digit or a minus is no word that begins with a letter.
not_word :
    (d : ℕ) (t : Text) (letter : ℕ) (w : Text)
    → (is_digit d || d == b'-') ≡ true
    → b'a' ≤ letter
    → letter ≤ b'z'
    → eq_ignore_ascii_case (d ∷ t) (letter ∷ w) ≡ false
unfolding eq_ignore_ascii_case ascii_lower
not_word d t letter w numeric low high = ground arith

digits_dotless : (t : Text) → all is_digit t ≡ true → any (λ c. c == b'.') t ≡ false
digits_dotless [] h = refl
digits_dotless (c ∷ t) h = ground (arith, digits_dotless t)

module _ (ops : TextOps) where
  abbrev number_lit : Text → Parser Text Value
  number_lit t =
      if any (λ c. c == b'.') t
      then (do x ← number_or (not_a_number t) (ops.parse_f64 t); give (float x))
      else (do i ← number_or (not_a_number t) (parse_i64 t); give (integer i))

  parse_value_lit-number :
      (d : ℕ) (t : Text) (rest : List Text)
      → (is_digit d || d == b'-') ≡ true
      → parse_value_lit ops ((d ∷ t) ∷ rest) ≡ number_lit (d ∷ t) rest
  unfolding parse_value_lit
  parse_value_lit-number d t rest numeric =
      let unquoted : starts_with (quote ∷ []) (d ∷ t) ≡ false = ground arith in
      rw
        (
          unquoted,
          not_word d t b't' (codes "rue") numeric (omega arith) (omega arith),
          not_word d t b'f' (codes "alse") numeric (omega arith) (omega arith),
          not_word d t b'n' (codes "ull") numeric (omega arith) (omega arith),
        )
        refl

  parse_integer :
      (i : ℕ) (rest : List Text)
      → i < 2 ^ 64
      → parse_value_lit ops (decimal_i64 i ∷ rest) ≡ ok (integer i, rest)
  parse_integer i rest small = elim (Bool-cases (ltb i (2 ^ 63))) [
    | inl positive ↦
        let (d, t, e, digit) = decimal-cons i in
        let spelled : decimal_i64 i ≡ d ∷ t = unfold decimal_i64 in rw positive e in
        let dotless = digits_dotless (d ∷ t) (rw e at (all-decimal i)) in
        let read = rw spelled at (parse_i64-decimal_i64 i small) in
        rw spelled
          (parse_value_lit-number d t rest (ground (arith, digit)) ∙ rw (dotless, read) refl)
    | inr negative ↦
        let spelled : decimal_i64 i ≡ b'-' ∷ decimal (2 ^ 64 - i) =
          unfold decimal_i64 in rw negative refl in
        let dotless = digits_dotless (decimal (2 ^ 64 - i)) (all-decimal (2 ^ 64 - i)) in
        let read = rw spelled at (parse_i64-decimal_i64 i small) in
        rw spelled
          (parse_value_lit-number b'-' (decimal (2 ^ 64 - i)) rest refl ∙ rw (dotless, read) refl)
  ]

  module _ (f64_text : ℕ → Text) where
    pub parse_float :
        (x : ℕ) (rest : List Text)
        → IsFloat f64_text ops x
        → parse_value_lit ops (f64_text x ∷ rest) ≡ ok (float x, rest)
    parse_float x rest h =
        rw h.spelled
          (parse_value_lit-number h.head h.tail rest h.numeric ∙ rw (h.dotted, h.read) refl)

    pub parse_value_lit-value_token :
        (v : Value) (rest : List Text)
        → IsWritable f64_text ops v
        → parse_value_lit ops (value_token f64_text v ∷ rest) ≡ ok (v, rest)
    unfolding parse_value_lit
    parse_value_lit-value_token null rest h = unfold eq_ignore_ascii_case ascii_lower in refl
    parse_value_lit-value_token (boolean true) rest h =
        unfold eq_ignore_ascii_case ascii_lower in refl
    parse_value_lit-value_token (boolean false) rest h =
        unfold eq_ignore_ascii_case ascii_lower in refl
    parse_value_lit-value_token (integer i) rest h = parse_integer i rest h
    parse_value_lit-value_token (float x) rest h = parse_float x rest h
    parse_value_lit-value_token (text s) rest h =
        rw (is_quoted-quoted s) (ap (λ u. ok (text u, rest)) (unquoted-quoted s))
