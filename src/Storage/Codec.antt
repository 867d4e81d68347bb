-- ===== src/Storage/Codec.antt =====
-- The hand-written codec of src/adapters/storage/binary_file.rs.
--
-- A writer is the list of the bytes that it appends to `buf`. A reader takes `data[pos..]` and leaves
-- the part that it did not consume, also where it fails. `String::from_utf8` is std's: `is_utf8` says
-- which byte strings it accepts.
pub mod Words
pub mod Values
pub mod Records
pub mod Progress
use ad_graph_db.Base.{
  ℕ, zero, suc, ◌%◌, ◌^◌, List, [], ◌∷◌, ◌++◌, Bool, true, false, not, length, take, drop, ltb,
  ◌==◌, nat_eq, list_eq, if◌then◌else◌,
}
use ad_graph_db.Base.Map
use ad_graph_db.Core.{
  NodeId, EdgeId, Text, Value, null, boolean, integer, float, text, Properties, Node, Edge, Reason,
  end_of_file, invalid_utf8, unknown_value_tag, unknown_record_type, deserialization_error, Result,
  ok, err,
}
use ad_graph_db.Storage.Bytes.{to_le, from_le}
use ad_graph_db.Storage.Checksum.{adler32}

pub data RecordData : Type 0 where
  upsert_node : Node → RecordData
  upsert_edge : Edge → RecordData
  delete_node : NodeId → RecordData
  delete_edge : EdgeId → RecordData
  begin_txn : ℕ → RecordData
  commit_txn : ℕ → RecordData
  rollback_txn : ℕ → RecordData

-- Writers.

unfoldable pub write_u32 : ℕ → List ℕ
write_u32 v = to_le 4 v

unfoldable pub write_u64 : ℕ → List ℕ
write_u64 v = to_le 8 v

-- The length is cast to a u32.
unfoldable pub write_str : Text → List ℕ
write_str s = write_u32 (length s % 2 ^ 32) ++ s

unfoldable pub write_value : Value → List ℕ
write_value null = 0x00 ∷ []
write_value (boolean b) = 0x01 ∷ (if b then 1 else 0) ∷ []
write_value (integer i) = 0x02 ∷ write_u64 i
write_value (float f) = 0x03 ∷ write_u64 f
write_value (text s) = 0x04 ∷ write_str s

unfoldable pub write_entries : Properties → List ℕ
write_entries [] = []
write_entries ((key, value) ∷ props) = write_str key ++ (write_value value ++ write_entries props)

unfoldable pub write_properties : Properties → List ℕ
write_properties props = write_u32 (length props % 2 ^ 32) ++ write_entries props

unfoldable pub with_checksum : List ℕ → List ℕ
with_checksum buf = buf ++ write_u32 (adler32 buf)

unfoldable pub node_payload : Node → List ℕ
node_payload n = write_u64 n.id ++ (write_str n.label ++ write_properties n.properties)

unfoldable pub edge_payload : Edge → List ℕ
edge_payload e =
    write_u64 e.id
    ++ (write_u64 e.source
        ++ (write_u64 e.target
            ++ (write_str e.label ++ (write_u64 e.weight ++ write_properties e.properties))))

unfoldable pub encode_node : Node → List ℕ
encode_node n = with_checksum (0x01 ∷ node_payload n)

unfoldable pub encode_edge : Edge → List ℕ
encode_edge e = with_checksum (0x02 ∷ edge_payload e)

unfoldable pub encode_delete_node : NodeId → List ℕ
encode_delete_node id = with_checksum (0x03 ∷ write_u64 id)

unfoldable pub encode_delete_edge : EdgeId → List ℕ
encode_delete_edge id = with_checksum (0x04 ∷ write_u64 id)

unfoldable pub encode_txn_marker : ℕ → ℕ → List ℕ
encode_txn_marker record_type txn_id = with_checksum (record_type ∷ write_u64 txn_id)

-- Readers.

abbrev pub Reader : Type 0 → Type 0
Reader A = List ℕ → Result A × List ℕ

abbrev pub continue_with : {A B : Type 0} → (A → Reader B) → Result A → List ℕ → Result B × List ℕ
continue_with f (ok a) rest = f a rest
continue_with f (err e) rest = (err e, rest)

infixl 5 ◌>>=◌
abbrev pub ◌>>=◌ : {A B : Type 0} → Reader A → (A → Reader B) → Reader B
◌>>=◌ m f bytes = continue_with f (m bytes).0 (m bytes).1

abbrev pub return : {A : Type 0} → A → Reader A
return a bytes = (ok a, bytes)

abbrev pub fail : {A : Type 0} → Reason → Reader A
fail reason bytes = (err (deserialization_error reason), bytes)

unfoldable pub read_u8 : Reader ℕ
read_u8 [] = (err (deserialization_error end_of_file), [])
read_u8 (b ∷ rest) = (ok b, rest)

unfoldable pub read_bytes : ℕ → Reader (List ℕ)
read_bytes n bytes =
    if ltb (length bytes) n
    then (err (deserialization_error end_of_file), bytes)
    else (ok (take n bytes), drop n bytes)

unfoldable pub read_u32 : Reader ℕ
read_u32 = do bytes ← read_bytes 4; return (from_le bytes)

-- `read_u64`, `read_i64` and `read_f64` read the same eight bytes.
unfoldable pub read_u64 : Reader ℕ
read_u64 = do bytes ← read_bytes 8; return (from_le bytes)

module _ (is_utf8 : Text → Bool) where
  abbrev pub check_utf8 : Text → Reader Text
  check_utf8 bytes = if is_utf8 bytes then return bytes else fail invalid_utf8

  unfoldable pub read_str : Reader Text
  read_str = do len ← read_u32; bytes ← read_bytes len; check_utf8 bytes

  -- The arms of the `match` on a value's tag.
  abbrev pub value_of_tag : ℕ → Reader Value
  value_of_tag tag =
      if tag == 0x00
      then return null
      else if tag == 0x01
      then (do b ← read_u8; return (boolean (not (b == 0))))
      else if tag == 0x02
      then (do i ← read_u64; return (integer i))
      else if tag == 0x03
      then (do f ← read_u64; return (float f))
      else if tag == 0x04
      then (do s ← read_str; return (text s))
      else fail (unknown_value_tag tag)

  unfoldable pub read_value : Reader Value
  read_value = do tag ← read_u8; value_of_tag tag

  -- The `for` loop of `read_properties`: the rounds left, and the map so far.
  unfoldable pub read_entries : ℕ → Properties → Reader Properties
  read_entries zero props = return props
  read_entries (suc count) props = do
    key ← read_str
    value ← read_value
    read_entries count (Map.insert key value props)

  unfoldable pub read_properties : Reader Properties
  read_properties = do count ← read_u32; read_entries count []

  unfoldable pub decode_node : Reader Node
  decode_node = do
    id ← read_u64
    label ← read_str
    properties ← read_properties
    return (record { id = id; label = label; properties = properties })

  unfoldable pub decode_edge : Reader Edge
  decode_edge = do
    id ← read_u64
    source ← read_u64
    target ← read_u64
    label ← read_str
    weight ← read_u64
    properties ← read_properties
    return (record {
      id = id;
      source = source;
      target = target;
      label = label;
      weight = weight;
      properties = properties;
    })

  unfoldable pub decode_record : ℕ → Reader RecordData
  decode_record record_type =
      if record_type == 0x01
      then (do n ← decode_node; return (upsert_node n))
      else if record_type == 0x02
      then (do e ← decode_edge; return (upsert_edge e))
      else if record_type == 0x03
      then (do id ← read_u64; return (delete_node id))
      else if record_type == 0x04
      then (do id ← read_u64; return (delete_edge id))
      else if record_type == 0x05
      then (do id ← read_u64; return (begin_txn id))
      else if record_type == 0x06
      then (do id ← read_u64; return (commit_txn id))
      else if record_type == 0x07
      then (do id ← read_u64; return (rollback_txn id))
      else fail (unknown_record_type record_type)
