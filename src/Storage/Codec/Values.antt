-- ===== src/Storage/Codec/Values.antt =====
-- Reading back values and property maps.
use mathlib.Core.List.{append_assoc}
use ad_graph_db.Base.{
  ℕ, ◌%◌, ◌^◌, ◌≡◌, refl, List, [], ◌∷◌, ◌++◌, Bool, true, false, length, arith, nat_eq, list_eq,
}
use ad_graph_db.Base.Map
use ad_graph_db.Base.Map.Distinct
use ad_graph_db.Base.Map.Extend
use ad_graph_db.Core.{
  Text, Value, null, boolean, integer, float, text, Properties, ok, IsU64, IsU32,
}
use ad_graph_db.Storage.Codec.{
  write_u32, write_str, write_value, write_entries, write_properties, read_u8, read_value,
  read_entries, read_properties,
}
use ad_graph_db.Storage.Codec.Words.{
  IsText, read_u32-write_u32, read_u64-write_u64, read_str-write_str,
}

module _ (is_utf8 : Text → Bool) where
  abbrev pub IsValue : Value → Type 0
  IsValue (integer i) = IsU64 i
  IsValue (float f) = IsU64 f
  IsValue (text s) = IsText is_utf8 s
  IsValue null = Unit
  IsValue (boolean b) = Unit

  abbrev pub AreEntries : Properties → Type 0
  AreEntries [] = Unit
  AreEntries ((key, value) ∷ props) = IsText is_utf8 key × IsValue value × AreEntries props

  pub read_value-write_value :
      (v : Value)
      → IsValue v
      → (rest : List ℕ) → read_value is_utf8 (write_value v ++ rest) ≡ (ok v, rest)
  unfolding read_value write_value read_u8
  read_value-write_value null h rest = refl
  read_value-write_value (boolean true) h rest = refl
  read_value-write_value (boolean false) h rest = refl
  read_value-write_value (integer i) h rest = rw (read_u64-write_u64 i h rest)
  read_value-write_value (float f) h rest = rw (read_u64-write_u64 f h rest)
  read_value-write_value (text s) h rest = rw (read_str-write_str is_utf8 s h rest)

  read_entries-write_entries :
      (props into : Properties)
      → AreEntries props
      → (rest : List ℕ)
      → read_entries is_utf8 (length props) into (write_entries props ++ rest)
        ≡ (ok (Map.Extend.extend props into), rest)
  unfolding read_entries write_entries
  read_entries-write_entries [] into h rest = refl
  read_entries-write_entries ((key, value) ∷ props) into (hk, hv, h) rest =
      rw
        (
          append_assoc (write_str key) (write_value value ++ write_entries props) rest,
          append_assoc (write_value value) (write_entries props) rest,
          read_str-write_str is_utf8 key hk (write_value value ++ (write_entries props ++ rest)),
          read_value-write_value value hv (write_entries props ++ rest),
        )
        (read_entries-write_entries props (Map.insert key value into) h rest)

  pub read_properties-write_properties :
      (props : Properties)
      → AreEntries props
      → Map.Distinct.IsMap props
      → IsU32 (length props)
      → (rest : List ℕ)
      → read_properties is_utf8 (write_properties props ++ rest) ≡ (ok props, rest)
  unfolding read_properties write_properties
  read_properties-write_properties props h d short rest =
      let small : length props % 2 ^ 32 ≡ length props = omega (arith, short) in
      rw (
        small,
        append_assoc (write_u32 (length props)) (write_entries props) rest,
        read_u32-write_u32 (length props) short (write_entries props ++ rest),
        read_entries-write_entries props [] h rest,
        Map.Extend.extend-nil props d,
      )
