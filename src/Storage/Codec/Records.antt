-- ===== src/Storage/Codec/Records.antt =====
-- Reading back nodes, edges and whole records.
use mathlib.Core.List.{append_assoc}
use ad_graph_db.Base.{ℕ, ◌≡◌, refl, List, ◌∷◌, ◌++◌, Bool, length, nat_eq, list_eq}
use ad_graph_db.Base.Map
use ad_graph_db.Base.Map.Distinct
use ad_graph_db.Core.{Text, Properties, Node, Edge, ok, IsU64, IsU32}
use ad_graph_db.Storage.Codec.{
  RecordData, upsert_node, upsert_edge, delete_node, delete_edge, begin_txn, commit_txn,
  rollback_txn, write_u64, write_str, write_properties, with_checksum, node_payload, edge_payload,
  encode_node, encode_edge, encode_delete_node, encode_delete_edge, encode_txn_marker,
  read_properties, decode_node, decode_edge, decode_record,
}
use ad_graph_db.Storage.Codec.Words.{IsText, read_u64-write_u64, read_str-write_str}
use ad_graph_db.Storage.Codec.Values.{AreEntries, read_properties-write_properties}

-- What the adapter appends for a record.
unfoldable pub encode : RecordData → List ℕ
encode (upsert_node n) = encode_node n
encode (upsert_edge e) = encode_edge e
encode (delete_node id) = encode_delete_node id
encode (delete_edge id) = encode_delete_edge id
encode (begin_txn id) = encode_txn_marker 0x05 id
encode (commit_txn id) = encode_txn_marker 0x06 id
encode (rollback_txn id) = encode_txn_marker 0x07 id

unfoldable pub record_type : RecordData → ℕ
record_type (upsert_node n) = 0x01
record_type (upsert_edge e) = 0x02
record_type (delete_node id) = 0x03
record_type (delete_edge id) = 0x04
record_type (begin_txn id) = 0x05
record_type (commit_txn id) = 0x06
record_type (rollback_txn id) = 0x07

unfoldable pub payload : RecordData → List ℕ
payload (upsert_node n) = node_payload n
payload (upsert_edge e) = edge_payload e
payload (delete_node id) = write_u64 id
payload (delete_edge id) = write_u64 id
payload (begin_txn id) = write_u64 id
payload (commit_txn id) = write_u64 id
payload (rollback_txn id) = write_u64 id

pub encode-eq : (r : RecordData) → encode r ≡ with_checksum (record_type r ∷ payload r)
unfolding encode record_type payload encode_node encode_edge encode_delete_node encode_delete_edge
    encode_txn_marker
encode-eq (upsert_node n) = refl
encode-eq _ = refl

module _ (is_utf8 : Text → Bool) where
  -- A property map: no key twice, fewer than 2 ^ 32 entries, each within its type.
  pub record IsProperties (props : Properties) : Type 0 where
    pub entries : AreEntries is_utf8 props
    pub distinct : Map.Distinct.IsMap props
    pub count : IsU32 (length props)

  pub record IsNode (n : Node) : Type 0 where
    pub id : IsU64 n.id
    pub label : IsText is_utf8 n.label
    pub properties : IsProperties n.properties

  pub record IsEdge (e : Edge) : Type 0 where
    pub id : IsU64 e.id
    pub source : IsU64 e.source
    pub target : IsU64 e.target
    pub label : IsText is_utf8 e.label
    pub weight : IsU64 e.weight
    pub properties : IsProperties e.properties

  -- A record as the types of the source bound it.
  abbrev pub IsRecord : RecordData → Type 0
  IsRecord (upsert_node n) = IsNode n
  IsRecord (upsert_edge e) = IsEdge e
  IsRecord (delete_node id) = IsU64 id
  IsRecord (delete_edge id) = IsU64 id
  IsRecord (begin_txn id) = IsU64 id
  IsRecord (commit_txn id) = IsU64 id
  IsRecord (rollback_txn id) = IsU64 id

  read_properties-write :
      (props : Properties)
      → IsProperties props
      → (rest : List ℕ)
      → read_properties is_utf8 (write_properties props ++ rest) ≡ (ok props, rest)
  read_properties-write props h =
      read_properties-write_properties is_utf8 props h.entries h.distinct h.count

  pub decode_node-payload :
      (n : Node)
      → IsNode n
      → (rest : List ℕ) → decode_node is_utf8 (node_payload n ++ rest) ≡ (ok n, rest)
  unfolding decode_node node_payload
  decode_node-payload n h rest =
      let props = write_properties n.properties in
      rw (
        append_assoc (write_u64 n.id) (write_str n.label ++ props) rest,
        append_assoc (write_str n.label) props rest,
        read_u64-write_u64 n.id h.id (write_str n.label ++ (props ++ rest)),
        read_str-write_str is_utf8 n.label h.label (props ++ rest),
        read_properties-write n.properties h.properties rest,
      )

  pub decode_edge-payload :
      (e : Edge)
      → IsEdge e
      → (rest : List ℕ) → decode_edge is_utf8 (edge_payload e ++ rest) ≡ (ok e, rest)
  unfolding decode_edge edge_payload
  decode_edge-payload e h rest = simp (
    append_assoc,
    read_u64-write_u64 e.id h.id,
    read_u64-write_u64 e.source h.source,
    read_u64-write_u64 e.target h.target,
    read_str-write_str is_utf8 e.label h.label,
    read_u64-write_u64 e.weight h.weight,
    read_properties-write e.properties h.properties,
  )

  -- Reading the payload of a record behind its type byte gives the record back, and leaves what
  -- follows, for every record within the bounds of its types.
  pub decode_record-payload :
      (r : RecordData)
      → IsRecord r
      → (rest : List ℕ) → decode_record is_utf8 (record_type r) (payload r ++ rest) ≡ (ok r, rest)
  unfolding decode_record record_type payload
  decode_record-payload (upsert_node n) h rest = rw (decode_node-payload n h rest)
  decode_record-payload (upsert_edge e) h rest = rw (decode_edge-payload e h rest)
  decode_record-payload (delete_node id) h rest = rw (read_u64-write_u64 id h rest)
  decode_record-payload (delete_edge id) h rest = rw (read_u64-write_u64 id h rest)
  decode_record-payload (begin_txn id) h rest = rw (read_u64-write_u64 id h rest)
  decode_record-payload (commit_txn id) h rest = rw (read_u64-write_u64 id h rest)
  decode_record-payload (rollback_txn id) h rest = rw (read_u64-write_u64 id h rest)
