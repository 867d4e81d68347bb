-- ===== src/Storage/Replay/Tidy.antt =====
-- What replay keeps of its maps: each node and each edge under its own id, once, and within its types.
use ad_graph_db.Base.{
  ℕ, ◌≡◌, refl, List, [], ◌∷◌, Bool, Option, none, some, nat_eq, ◌==◌, inl, inr, Bool-cases,
}
use ad_graph_db.Base.Map
use ad_graph_db.Base.Map.Distinct.{IsMap, insert-IsMap, remove-IsMap}
use ad_graph_db.Base.Map.Extend.{extend}
use ad_graph_db.Base.Map.Entries.{
  AllEntries, AllEntries-append, insert-AllEntries, remove-AllEntries, extend-AllEntries,
  extend-IsMap,
}
use ad_graph_db.Core.{Text, NodeId, EdgeId, Node, Edge}
use ad_graph_db.Storage.Codec.{
  RecordData, upsert_node, upsert_edge, delete_node, delete_edge, begin_txn, commit_txn,
  rollback_txn,
}
use ad_graph_db.Storage.Codec.Records.{IsRecord, IsNode, IsEdge}
use ad_graph_db.Storage.Replay.{
  TxnBuffer, Replayed, no_records, remove_all, apply_now, buffer_record, apply_or_buffer,
  commit_buffer, apply_record,
}
use ad_graph_db.Storage.Replay.Records.{apply_all, AreRecords}

module _ {V : Type 0} (P : ℕ → V → Type 0) where
  -- A map whose entries fit.
  abbrev pub IsTable : List (ℕ × V) → Type 0
  IsTable m = AllEntries P m × IsMap m

  insert-IsTable :
      (k : ℕ) (v : V) (m : List (ℕ × V)) → P k v → IsTable m → IsTable (Map.insert k v m)
  insert-IsTable k v m h (entries, distinct) =
      (insert-AllEntries P k v m h entries, insert-IsMap k v m distinct)

  remove-IsTable : (k : ℕ) (m : List (ℕ × V)) → IsTable m → IsTable (Map.remove k m)
  remove-IsTable k m (entries, distinct) =
      (remove-AllEntries P k m entries, remove-IsMap k m distinct)

  remove_all-IsTable : (ks : List ℕ) (m : List (ℕ × V)) → IsTable m → IsTable (remove_all ks m)
  remove_all-IsTable [] m h = h
  remove_all-IsTable (k ∷ ks) m h = remove_all-IsTable ks (Map.remove k m) (remove-IsTable k m h)

  committed-IsTable :
      (gone : List ℕ) (more m : List (ℕ × V))
      → AllEntries P more
      → IsTable m
      → IsTable (remove_all gone (extend more m))
  committed-IsTable gone more m h (entries, distinct) =
      remove_all-IsTable gone (extend more m)
        (extend-AllEntries P more m h entries, extend-IsMap more m distinct)

module _ (is_utf8 : Text → Bool) where
  abbrev pub NodeEntry : NodeId → Node → Type 0
  NodeEntry k n = (n.id ≡ k) × IsNode is_utf8 n

  abbrev pub EdgeEntry : EdgeId → Edge → Type 0
  EdgeEntry k e = (e.id ≡ k) × IsEdge is_utf8 e

  abbrev IsTidyBuffer : Option TxnBuffer → Type 0
  IsTidyBuffer none = Unit
  IsTidyBuffer (some b) = AllEntries NodeEntry b.n_ins × AllEntries EdgeEntry b.e_ins

  pub record IsTidy (s : Replayed) : Type 0 where
    pub nodes : IsTable NodeEntry s.nodes
    pub edges : IsTable EdgeEntry s.edges
    pub buffer : IsTidyBuffer s.txn_buffer

  apply_now-IsTidy :
      (r : RecordData) (s : Replayed) → IsRecord is_utf8 r → IsTidy s → IsTidy (apply_now r s)
  unfolding apply_now
  apply_now-IsTidy (upsert_node n) s hr h = record {
    nodes = insert-IsTable NodeEntry n.id n s.nodes (refl, hr) h.nodes;
    edges = h.edges;
    buffer = h.buffer;
  }
  apply_now-IsTidy (upsert_edge e) s hr h = record {
    nodes = h.nodes;
    edges = insert-IsTable EdgeEntry e.id e s.edges (refl, hr) h.edges;
    buffer = h.buffer;
  }
  apply_now-IsTidy (delete_node id) s hr h = record {
    nodes = remove-IsTable NodeEntry id s.nodes h.nodes;
    edges = h.edges;
    buffer = h.buffer;
  }
  apply_now-IsTidy (delete_edge id) s hr h = record {
    nodes = h.nodes;
    edges = remove-IsTable EdgeEntry id s.edges h.edges;
    buffer = h.buffer;
  }
  apply_now-IsTidy (begin_txn id) s hr h = h
  apply_now-IsTidy (commit_txn id) s hr h = h
  apply_now-IsTidy (rollback_txn id) s hr h = h

  buffer_record-IsTidyBuffer :
      (r : RecordData) (b : TxnBuffer)
      → IsRecord is_utf8 r
      → IsTidyBuffer (some b)
      → IsTidyBuffer (some (buffer_record r b))
  unfolding buffer_record
  buffer_record-IsTidyBuffer (upsert_node n) b hr (hn, he) =
      (AllEntries-append NodeEntry b.n_ins ((n.id, n) ∷ []) hn ((refl, hr), tt), he)
  buffer_record-IsTidyBuffer (upsert_edge e) b hr (hn, he) =
      (hn, AllEntries-append EdgeEntry b.e_ins ((e.id, e) ∷ []) he ((refl, hr), tt))
  buffer_record-IsTidyBuffer (delete_node id) b hr h = h
  buffer_record-IsTidyBuffer (delete_edge id) b hr h = h
  buffer_record-IsTidyBuffer (begin_txn id) b hr h = h
  buffer_record-IsTidyBuffer (commit_txn id) b hr h = h
  buffer_record-IsTidyBuffer (rollback_txn id) b hr h = h

  abbrev state : List (NodeId × Node) → List (EdgeId × Edge) → Option TxnBuffer → Replayed
  state ns es buffer = record { nodes = ns; edges = es; txn_buffer = buffer }

  apply_or_buffer-IsTidy :
      (r : RecordData) (ns : List (NodeId × Node)) (es : List (EdgeId × Edge))
      (buffer : Option TxnBuffer)
      → IsRecord is_utf8 r
      → IsTidy (state ns es buffer)
      → IsTidy (apply_or_buffer r (state ns es buffer))
  unfolding apply_or_buffer
  apply_or_buffer-IsTidy r ns es none hr h = apply_now-IsTidy r (state ns es none) hr h
  apply_or_buffer-IsTidy r ns es (some b) hr h = record {
    nodes = h.nodes;
    edges = h.edges;
    buffer = buffer_record-IsTidyBuffer r b hr h.buffer;
  }

  commit-IsTidy :
      (id : ℕ) (ns : List (NodeId × Node)) (es : List (EdgeId × Edge)) (buffer : Option TxnBuffer)
      → IsTidy (state ns es buffer)
      → IsTidy (apply_record (commit_txn id) (state ns es buffer))
  unfolding apply_record commit_buffer
  commit-IsTidy id ns es none h = h
  commit-IsTidy id ns es (some b) h = elim (Bool-cases (b.txn_id == id)) [
    | inl same ↦ rw same (record {
      nodes = committed-IsTable NodeEntry b.n_del b.n_ins ns h.buffer.0 h.nodes;
      edges = committed-IsTable EdgeEntry b.e_del b.e_ins es h.buffer.1 h.edges;
      buffer = tt;
    })
    | inr other ↦ rw other (record { nodes = h.nodes; edges = h.edges; buffer = tt })
  ]

  pub apply_record-IsTidy :
      (r : RecordData) (s : Replayed) → IsRecord is_utf8 r → IsTidy s → IsTidy (apply_record r s)
  unfolding apply_record
  apply_record-IsTidy (upsert_node n) s hr h =
      apply_or_buffer-IsTidy (upsert_node n) s.nodes s.edges s.txn_buffer hr h
  apply_record-IsTidy (upsert_edge e) s hr h =
      apply_or_buffer-IsTidy (upsert_edge e) s.nodes s.edges s.txn_buffer hr h
  apply_record-IsTidy (delete_node id) s hr h =
      apply_or_buffer-IsTidy (delete_node id) s.nodes s.edges s.txn_buffer hr h
  apply_record-IsTidy (delete_edge id) s hr h =
      apply_or_buffer-IsTidy (delete_edge id) s.nodes s.edges s.txn_buffer hr h
  apply_record-IsTidy (begin_txn id) s hr h = record {
    nodes = h.nodes;
    edges = h.edges;
    buffer = (tt, tt);
  }
  apply_record-IsTidy (commit_txn id) s hr h =
      unfold apply_record in commit-IsTidy id s.nodes s.edges s.txn_buffer h
  apply_record-IsTidy (rollback_txn id) s hr h = record {
    nodes = h.nodes;
    edges = h.edges;
    buffer = tt;
  }

  -- After any log of well-formed records, transactions included, every node and every edge stands
  -- under its own id, once, and within its types.
  pub apply_all-IsTidy :
      (log : List RecordData) (s : Replayed)
      → AreRecords is_utf8 log
      → IsTidy s
      → IsTidy (apply_all log s)
  apply_all-IsTidy [] s hr h = h
  apply_all-IsTidy (r ∷ log) s (hr, hl) h =
      apply_all-IsTidy log (apply_record r s) hl (apply_record-IsTidy r s hr h)

  pub no_records-IsTidy : IsTidy no_records
  no_records-IsTidy = record { nodes = (tt, tt); edges = (tt, tt); buffer = tt }
