-- ===== src/Storage/Checksum.antt =====
-- `adler32` of src/adapters/storage/binary_file.rs. The two sums stay below 65521, so neither
-- `wrapping_add` wraps, and `(b << 16) | a` joins disjoint bits: it is a sum.
use mathlib.Core.List.{foldl}
use ad_graph_db.Base.{ℕ, ◌+◌, ◌*◌, ◌%◌, ◌^◌, ◌<◌, List, [], ◌∷◌, arith}

abbrev pub modulus : ℕ
modulus = 65521

-- The body of the loop, over the pair (a, b).
abbrev pub adler_step : ℕ × ℕ → ℕ → ℕ × ℕ
adler_step (a, b) byte =
    ((a + byte) % 2 ^ 32 % modulus, (b + (a + byte) % 2 ^ 32 % modulus) % 2 ^ 32 % modulus)

abbrev pub adler_join : ℕ × ℕ → ℕ
adler_join (a, b) = b * 2 ^ 16 + a

unfoldable pub adler32 : List ℕ → ℕ
adler32 bytes = adler_join (foldl adler_step (1, 0) bytes)

adler_sums_bounds :
    (bytes : List ℕ) (s : ℕ × ℕ)
    → s.0 < modulus
    → s.1 < modulus
    → ((foldl adler_step s bytes).0 < modulus) × ((foldl adler_step s bytes).1 < modulus)
adler_sums_bounds [] s p q = (p, q)
adler_sums_bounds (x ∷ bytes) s p q =
    adler_sums_bounds bytes (adler_step s x) (omega arith) (omega arith)

-- A checksum is a u32, so that writing and reading it loses nothing.
pub adler32-lt : (bytes : List ℕ) → adler32 bytes < 2 ^ 32
unfolding adler32
adler32-lt bytes = omega (arith, adler_sums_bounds bytes (1, 0) (omega arith) (omega arith))
