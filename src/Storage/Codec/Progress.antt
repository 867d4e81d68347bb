-- ===== src/Storage/Codec/Progress.antt =====
-- No reader gives bytes back: what is left is never longer than what it was given.
use ad_graph_db.Base.{
  ℕ, zero, suc, ◌≤◌, List, [], ◌∷◌, Bool, true, false, length, arith, if◌then◌else◌, nat_eq,
  list_eq,
}
use ad_graph_db.Base.Map
use ad_graph_db.Core.{Text, Properties, Reason, Result, ok, err}
use ad_graph_db.Storage.Bytes.{length-drop-le}
use ad_graph_db.Storage.Codec.{
  Reader, ◌>>=◌, return, fail, continue_with, read_u8, read_bytes, read_u32, read_u64, read_str,
  read_value, value_of_tag, read_entries, read_properties, decode_node, decode_edge, decode_record,
}

pub data Shrinks {A : Type 0} (m : Reader A) : Type 0 where
  shrinks : ((bytes : List ℕ) → length (m bytes).1 ≤ length bytes) → Shrinks m

pub length-rest-le :
    {A : Type 0} {m : Reader A} → Shrinks m → (bytes : List ℕ) → length (m bytes).1 ≤ length bytes
length-rest-le (shrinks le) = le

continue_with-le :
    {A B : Type 0} (f : A → Reader B) (r : Result A) (rest bytes : List ℕ)
    → ((a : A) → Shrinks (f a))
    → length rest ≤ length bytes
    → length (continue_with f r rest).1 ≤ length bytes
continue_with-le f (ok a) rest bytes h le = omega (arith, length-rest-le (h a) rest)
continue_with-le f (err e) rest bytes h le = le

bind-Shrinks :
    {A B : Type 0} {m : Reader A} {f : A → Reader B}
    → Shrinks m
    → ((a : A) → Shrinks (f a))
    → Shrinks (m >>= f)
bind-Shrinks {m} {f} hm hf =
    shrinks λ bytes. continue_with-le f (m bytes).0 (m bytes).1 bytes hf (length-rest-le hm bytes)

if-Shrinks :
    {A : Type 0} (b : Bool) {m n : Reader A} → Shrinks m → Shrinks n → Shrinks (if b then m else n)
if-Shrinks true hm hn = hm
if-Shrinks false hm hn = hn

return-Shrinks : {A : Type 0} (a : A) → Shrinks (return a)
return-Shrinks a = shrinks λ bytes. omega arith

fail-Shrinks : {A : Type 0} (reason : Reason) → Shrinks (fail {A = A} reason)
fail-Shrinks {A} reason = shrinks λ bytes. omega arith

read_u8-Shrinks : Shrinks read_u8
unfolding read_u8
read_u8-Shrinks = shrinks (elim [ [] ↦ omega arith | b ∷ rest ↦ omega arith ])

read_bytes-Shrinks : (n : ℕ) → Shrinks (read_bytes n)
unfolding read_bytes
read_bytes-Shrinks n = shrinks λ bytes. ground (arith, length-drop-le n bytes)

ruleset rules =
    (bind-Shrinks, if-Shrinks, return-Shrinks, fail-Shrinks, read_u8-Shrinks, read_bytes-Shrinks)

pub read_u32-Shrinks : Shrinks read_u32
unfolding read_u32
read_u32-Shrinks = search rules

read_u64-Shrinks : Shrinks read_u64
unfolding read_u64
read_u64-Shrinks = search rules

module _ (is_utf8 : Text → Bool) where
  read_str-Shrinks : Shrinks (read_str is_utf8)
  unfolding read_str
  read_str-Shrinks = search (rules, read_u32-Shrinks)

  value_of_tag-Shrinks : (tag : ℕ) → Shrinks (value_of_tag is_utf8 tag)
  value_of_tag-Shrinks tag = search (rules, read_u64-Shrinks, read_str-Shrinks) depth 12

  read_value-Shrinks : Shrinks (read_value is_utf8)
  unfolding read_value
  read_value-Shrinks = bind-Shrinks read_u8-Shrinks value_of_tag-Shrinks

  read_entries-Shrinks :
      (count : ℕ) (props : Properties) → Shrinks (read_entries is_utf8 count props)
  unfolding read_entries
  read_entries-Shrinks zero props = return-Shrinks props
  read_entries-Shrinks (suc count) props = bind-Shrinks read_str-Shrinks λ key.
      bind-Shrinks read_value-Shrinks
        λ value. read_entries-Shrinks count (Map.insert key value props)

  read_properties-Shrinks : Shrinks (read_properties is_utf8)
  unfolding read_properties
  read_properties-Shrinks = search (rules, read_u32-Shrinks, read_entries-Shrinks)

  decode_node-Shrinks : Shrinks (decode_node is_utf8)
  unfolding decode_node
  decode_node-Shrinks =
      search (rules, read_u64-Shrinks, read_str-Shrinks, read_properties-Shrinks) depth 10

  decode_edge-Shrinks : Shrinks (decode_edge is_utf8)
  unfolding decode_edge
  decode_edge-Shrinks =
      search (rules, read_u64-Shrinks, read_str-Shrinks, read_properties-Shrinks) depth 14

  pub decode_record-Shrinks : (t : ℕ) → Shrinks (decode_record is_utf8 t)
  unfolding decode_record
  decode_record-Shrinks t =
      search (rules, read_u64-Shrinks, decode_node-Shrinks, decode_edge-Shrinks) depth 14
