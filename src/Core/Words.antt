-- ===== src/Core/Words.antt =====
-- 64-bit words: the bound of a `u64`, and the order of `i64` patterns.
use ad_graph_db.Base.{ℕ, ◌+◌, ◌%◌, ◌^◌, ◌<◌, ◌≡◌, arith}

abbrev pub u64_mod : ℕ
u64_mod = 2 ^ 64

abbrev pub IsU64 : ℕ → Type 0
IsU64 n = n < 2 ^ 64

abbrev pub IsU32 : ℕ → Type 0
IsU32 n = n < 2 ^ 32

-- Flipping the sign bit turns the order of `i64` into the order of the patterns.
abbrev pub i64_key : ℕ → ℕ
i64_key x = (x + 2 ^ 63) % 2 ^ 64

pub i64_key_injective : (x y : ℕ) → x < 2 ^ 64 → y < 2 ^ 64 → i64_key x ≡ i64_key y → x ≡ y
i64_key_injective x y hx hy e = omega arith
