-- ===== src/Language/Chars/Decimal.antt =====
-- Numbers in decimal, and that `parse_u64` and `parse_i64` read them back.
use ad_graph_db.Base.{
  ℕ, zero, suc, ◌+◌, ◌-◌, ◌*◌, ◌/◌, ◌%◌, ◌^◌, ◌<◌, ◌≤◌, ◌≡◌, refl, ◌∙◌, [], ◌∷◌, true, some, all,
  ltb, nat_eq, ◌==◌, if◌then◌else◌, inl, inr, Bool-cases, arith,
}
use ad_graph_db.Core.{Text}
use ad_graph_db.Language.Chars.{is_digit, scan_digits, scan_some, parse_u64, parse_i64}

-- The digits of `n` before `out`.
unfoldable pub digits_onto : ℕ → ℕ → Text → Text
digits_onto zero n out = out
digits_onto (suc fuel) n out =
    let more = digits_onto fuel (n / 10) ((b'0' + n % 10) ∷ out) in
    if n / 10 == 0 then (b'0' + n % 10) ∷ out else more

-- Twenty digits hold every `u64`.
unfoldable pub decimal : ℕ → Text
decimal n = digits_onto 20 n []

-- A pattern of an `i64`, with its sign.
unfoldable pub decimal_i64 : ℕ → Text
decimal_i64 n = if ltb n (2 ^ 63) then decimal n else b'-' ∷ decimal (2 ^ 64 - n)

-- The numbers of that many digits.
abbrev capacity : ℕ → ℕ
capacity zero = 1
capacity (suc fuel) = 10 * capacity fuel

-- Reading the last digit behind the others gives the number.
scan_last :
    (max n : ℕ) (out : Text)
    → n ≤ max
    → scan_digits max ((b'0' + n % 10) ∷ out) (n / 10) ≡ scan_digits max out n
unfolding scan_digits
scan_last max n out le =
    let exact : n / 10 * 10 + ((b'0' + n % 10) - b'0') ≡ n = omega arith in rw exact (ground arith)

scan_one :
    (max n : ℕ) (out : Text)
    → n ≤ max
    → n / 10 ≡ 0
    → scan_digits max ((b'0' + n % 10) ∷ out) 0 ≡ scan_digits max out n
scan_one max n out le small = rw (← small) (scan_last max n out le)

scan-digits_onto :
    (max fuel n : ℕ) (out : Text)
    → n < capacity (suc fuel)
    → n ≤ max
    → scan_digits max (digits_onto (suc fuel) n out) 0 ≡ scan_digits max out n
unfolding digits_onto
scan-digits_onto max zero n out small le = ground (arith, scan_one max n out le)
scan-digits_onto max (suc fuel) n out small le = elim (Bool-cases (n / 10 == 0)) [
  | inl last ↦ rw last (scan_one max n out le (ground (arith, last)))
  | inr more ↦ rw more (
      scan-digits_onto max fuel (n / 10) ((b'0' + n % 10) ∷ out) (omega arith) (omega arith)
      ∙ scan_last max n out le)
]

digits_onto-digits :
    (fuel n : ℕ) (out : Text)
    → all is_digit out ≡ true
    → all is_digit (digits_onto fuel n out) ≡ true
unfolding digits_onto
digits_onto-digits zero n out h = h
digits_onto-digits (suc fuel) n out h =
    let digit : is_digit (b'0' + n % 10) ≡ true = ground arith in
    ground (arith, digit, digits_onto-digits fuel (n / 10) ((b'0' + n % 10) ∷ out))

-- The decimal of a number is digits only.
pub all-decimal : (n : ℕ) → all is_digit (decimal n) ≡ true
unfolding decimal
all-decimal n = digits_onto-digits 20 n [] refl

digits_onto-cons :
    (fuel n : ℕ) (out : Text) (c : ℕ)
    → (d : ℕ) × (t : Text) × (digits_onto fuel n (c ∷ out) ≡ d ∷ t)
unfolding digits_onto
digits_onto-cons zero n out c = (c, out, refl)
digits_onto-cons (suc fuel) n out c = elim (Bool-cases (n / 10 == 0)) [
  | inl last ↦ (b'0' + n % 10, c ∷ out, rw last refl)
  | inr more ↦
      let (d, t, e) = digits_onto-cons fuel (n / 10) (c ∷ out) (b'0' + n % 10) in (d, t, rw more e)
]

decimal-shape : (n : ℕ) → (d : ℕ) × (t : Text) × (decimal n ≡ d ∷ t)
unfolding decimal digits_onto
decimal-shape n = elim (Bool-cases (n / 10 == 0)) [
  | inl last ↦ (b'0' + n % 10, [], rw last refl)
  | inr more ↦ let (d, t, e) = digits_onto-cons 19 (n / 10) [] (b'0' + n % 10) in (d, t, rw more e)
]

-- There is at least one digit.
pub decimal-cons : (n : ℕ) → (d : ℕ) × (t : Text) × (decimal n ≡ d ∷ t) × (is_digit d ≡ true)
decimal-cons n =
    let (d, t, e) = decimal-shape n in
    let digits : all is_digit (d ∷ t) ≡ true = rw e at (all-decimal n) in
    (d, t, e, ground (arith, digits))

scan_some-decimal : (max n : ℕ) → n < 2 ^ 64 → n ≤ max → scan_some max (decimal n) ≡ some n
scan_some-decimal max n small le =
    let (d, t, e, _) = decimal-cons n in
    rw e (
      rw (← e) (
        unfold decimal in
        (scan-digits_onto max 19 n [] (omega arith) le ∙ unfold scan_digits in refl)))

-- Every `u64` is read back from its decimal.
pub parse_u64-decimal : (n : ℕ) → n < 2 ^ 64 → parse_u64 (decimal n) ≡ some n
unfolding parse_u64
parse_u64-decimal n small =
    let (d, t, e, digit) = decimal-cons n in
    let read = scan_some-decimal (2 ^ 64 - 1) n small (omega arith) in
    rw e (ground (arith, digit, rw e at read))

-- Every `i64` is read back from its decimal with a sign.
pub parse_i64-decimal_i64 : (n : ℕ) → n < 2 ^ 64 → parse_i64 (decimal_i64 n) ≡ some n
unfolding parse_i64 decimal_i64
parse_i64-decimal_i64 n small = elim (Bool-cases (ltb n (2 ^ 63))) [
  | inl positive ↦
      let (d, t, e, digit) = decimal-cons n in
      let read = scan_some-decimal (2 ^ 63 - 1) n small (ground (arith, positive)) in
      rw (positive, e) (ground (arith, digit, rw e at read))
  | inr negative ↦
      let read =
        scan_some-decimal (2 ^ 63) (2 ^ 64 - n) (ground (arith, negative))
          (ground (arith, negative)) in
      rw negative (rw read (ground (arith, negative)))
]
