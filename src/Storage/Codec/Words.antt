-- ===== src/Storage/Codec/Words.antt =====
-- Reading back the words and the strings that the writers append.
use mathlib.Core.List.{append_assoc}
use ad_graph_db.Base.{ℕ, ◌%◌, ◌^◌, ◌<◌, ◌≡◌, List, ◌++◌, Bool, true, length, arith, length-append}
use ad_graph_db.Core.{Text, ok, IsU64, IsU32}
use ad_graph_db.Storage.Bytes.{to_le, length-to_le, from_le-to_le, take-append, drop-append}
use ad_graph_db.Storage.Codec.{
  write_u32, write_u64, write_str, read_bytes, read_u32, read_u64, read_str,
}

pub read_bytes-append :
    (bytes rest : List ℕ) → read_bytes (length bytes) (bytes ++ rest) ≡ (ok bytes, rest)
unfolding read_bytes
read_bytes-append bytes rest =
    rw (take-append bytes rest, drop-append bytes rest) (ground (arith, length-append bytes rest))

read_bytes-to_le :
    (k v : ℕ) (rest : List ℕ) → read_bytes k (to_le k v ++ rest) ≡ (ok (to_le k v), rest)
read_bytes-to_le k v rest = rw (length-to_le k v) at (read_bytes-append (to_le k v) rest)

pub read_u32-write_u32 :
    (v : ℕ) → IsU32 v → (rest : List ℕ) → read_u32 (write_u32 v ++ rest) ≡ (ok v, rest)
unfolding read_u32 write_u32
read_u32-write_u32 v h rest = rw (read_bytes-to_le 4 v rest, from_le-to_le 4 v (omega arith))

pub read_u64-write_u64 :
    (v : ℕ) → IsU64 v → (rest : List ℕ) → read_u64 (write_u64 v ++ rest) ≡ (ok v, rest)
unfolding read_u64 write_u64
read_u64-write_u64 v h rest = rw (read_bytes-to_le 8 v rest, from_le-to_le 8 v (omega arith))

module _ (is_utf8 : Text → Bool) where
  -- A Rust `String` shorter than 4 GiB.
  pub record IsText (s : Text) : Type 0 where
    pub utf8 : is_utf8 s ≡ true
    pub short : length s < 2 ^ 32

  pub read_str-write_str :
      (s : Text)
      → IsText s
      → (rest : List ℕ) → read_str is_utf8 (write_str s ++ rest) ≡ (ok s, rest)
  unfolding read_str write_str
  read_str-write_str s h rest =
      let small : length s % 2 ^ 32 ≡ length s = omega (arith, h.short) in
      rw (
        small,
        append_assoc (write_u32 (length s)) s rest,
        read_u32-write_u32 (length s) h.short (s ++ rest),
        read_bytes-append s rest,
        h.utf8,
      )
