-- ===== src/Language/Chars.antt =====
-- What the parsers use of std's strings. A text is its bytes; all that the languages look for is ASCII.
pub mod Decimal
use Prim.Native.Char.{code}
use Prim.Native.String
use Prim.Native.String.{String}
use ad_graph_db.Base.{
  ℕ, ◌+◌, ◌-◌, ◌*◌, ◌%◌, ◌^◌, List, [], ◌∷◌, map, Bool, true, false, ◌&&◌, Option, none, some, all,
  leb, ltb, nat_eq, list_eq, ◌==◌, drop, take, if◌then◌else◌,
}
use ad_graph_db.Core.{Text}

-- The bytes of an ASCII literal.
abbrev pub codes : String → Text
codes String.[] = []
codes (String.◌∷◌ c s) = code c ∷ codes s

unfoldable pub ascii_upper : ℕ → ℕ
ascii_upper c = if leb b'a' c && leb c b'z' then c - 32 else c

unfoldable pub ascii_lower : ℕ → ℕ
ascii_lower c = if leb b'A' c && leb c b'Z' then c + 32 else c

abbrev pub is_digit : ℕ → Bool
is_digit c = leb b'0' c && leb c b'9'

abbrev pub is_ascii : Text → Bool
is_ascii = all (λ c. ltb c 128)

-- What Unicode's tables and the reading of floats decide: `parse_f64` gives the pattern of the number,
-- the case maps are asked for texts that are not ASCII.
pub record TextOps : Type 0 where
  pub unicode_upper : Text → Text
  pub unicode_lower : Text → Text
  pub parse_f64 : Text → Option ℕ

unfoldable pub to_uppercase : TextOps → Text → Text
to_uppercase ops s = if is_ascii s then map ascii_upper s else ops.unicode_upper s

unfoldable pub to_lowercase : TextOps → Text → Text
to_lowercase ops s = if is_ascii s then map ascii_lower s else ops.unicode_lower s

unfoldable pub eq_ignore_ascii_case : Text → Text → Bool
eq_ignore_ascii_case s t = map ascii_lower s == map ascii_lower t

abbrev pub starts_with : Text → Text → Bool
starts_with [] s = true
starts_with (c ∷ cs) [] = false
starts_with (c ∷ cs) (d ∷ ds) = c == d && starts_with cs ds

abbrev pub ends_with_byte : ℕ → Text → Bool
ends_with_byte b [] = false
ends_with_byte b (c ∷ []) = c == b
ends_with_byte b (c ∷ d ∷ s) = ends_with_byte b (d ∷ s)

-- The digits of a number behind `n`, checked against the greatest value.
unfoldable pub scan_digits : ℕ → Text → ℕ → Option ℕ
scan_digits max [] n = some n
scan_digits max (c ∷ s) n =
    let m = n * 10 + (c - b'0') in
    let rest = scan_digits max s m in
    if is_digit c then (if leb m max then rest else none) else none

abbrev pub scan_some : ℕ → Text → Option ℕ
scan_some max [] = none
scan_some max (c ∷ s) = scan_digits max (c ∷ s) 0

-- `str::parse::<u64>`, which takes a leading `+`.
unfoldable pub parse_u64 : Text → Option ℕ
parse_u64 [] = none
parse_u64 (c ∷ s) = if c == b'+' then scan_some (2 ^ 64 - 1) s else scan_some (2 ^ 64 - 1) (c ∷ s)

abbrev pub negated : Option ℕ → Option ℕ
negated none = none
negated (some n) = some ((2 ^ 64 - n) % 2 ^ 64)

-- `str::parse::<i64>`, as a pattern.
unfoldable pub parse_i64 : Text → Option ℕ
parse_i64 [] = none
parse_i64 (c ∷ s) =
    if c == b'+'
    then scan_some (2 ^ 63 - 1) s
    else if c == b'-'
    then negated (scan_some (2 ^ 63) s)
    else scan_some (2 ^ 63 - 1) (c ∷ s)
