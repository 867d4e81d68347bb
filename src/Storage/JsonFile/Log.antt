-- ===== src/Storage/JsonFile/Log.antt =====
-- What the methods of the JSON adapter do to a file that holds a log.
use mathlib.Core.List.{append-nil, append_assoc}
use ad_graph_db.Base.{
  ◌≡◌, ◌≢◌, refl, sym, ap, ◌∙◌, List, [], ◌∷◌, ◌++◌, none, some, nat_eq, nat_beq_iff, arith,
}
use ad_graph_db.Base.Map
use ad_graph_db.Core.{NodeId, Node, ok}
use ad_graph_db.Storage.JsonFile.{
  WalRecord, put_node, drop_node, JsonOps, File, no_maps, apply_record, append_bytes, append_record,
  replay, save_node, delete_node, load_node,
}
use ad_graph_db.Storage.JsonFile.Lines.{
  IsJson, AreJson, apply_all, apply_all-append, log_bytes, record_line-IsJson,
  replay_lines-log_bytes,
}

module _ (json : JsonOps) where
  abbrev pub are_json_append :
      (xs ys : List WalRecord) → AreJson json xs → AreJson json ys → AreJson json (xs ++ ys)
  are_json_append [] ys h k = k
  are_json_append (x ∷ xs) ys (h, hs) k = (h, are_json_append xs ys hs k)

  log_bytes-append :
      (xs ys : List WalRecord) (h : AreJson json xs) (k : AreJson json ys)
      → log_bytes json (xs ++ ys) (are_json_append xs ys h k)
        ≡ log_bytes json xs h ++ log_bytes json ys k
  log_bytes-append [] ys h k = refl
  log_bytes-append (x ∷ xs) ys (h, hs) k =
      ap (◌++◌ (h.line ++ b'\n' ∷ [])) (log_bytes-append xs ys hs k)
      ∙ sym (append_assoc (h.line ++ b'\n' ∷ []) (log_bytes json xs hs) (log_bytes json ys k))

  -- The file is the lines of these records.
  pub record Holds (file : File) (log : List WalRecord) : Type 0 where
    pub records : AreJson json log
    pub bytes : file ≡ some (log_bytes json log records)

  pub replay-Holds :
      (file : File) (log : List WalRecord)
      → Holds file log
      → replay json file ≡ ok (apply_all log no_maps)
  unfolding replay
  replay-Holds file log h = rw h.bytes (replay_lines-log_bytes json 0 log no_maps h.records)

  -- A write adds its record to the log.
  pub append_record-Holds :
      (file : File) (log : List WalRecord) (r : WalRecord)
      → Holds file log
      → IsJson json r
      → ((append_record json r file).0 ≡ ok tt)
        × Holds (append_record json r file).1 (log ++ r ∷ [])
  unfolding append_record append_bytes
  append_record-Holds file log r h k = rw (record_line-IsJson json r k) (
    refl,
    record {
      records = are_json_append log (r ∷ []) h.records (k, tt);
      bytes = rw h.bytes (
          ap some (
            ap (◌++◌ (log_bytes json log h.records)) (sym (append-nil (k.line ++ b'\n' ∷ [])))
            ∙ sym (log_bytes-append log (r ∷ []) h.records (k, tt))));
    },
  )

  -- What a node's id reads behind one record more.
  pub load_node-append :
      (id : NodeId) (file : File) (log : List WalRecord) (r : WalRecord)
      → Holds file log
      → IsJson json r
      → load_node json id (append_record json r file).1
        ≡ ok (Map.get id (apply_record r (apply_all log no_maps)).nodes)
  unfolding load_node
  load_node-append id file log r h k =
      rw
        (replay-Holds (append_record json r file).1 (log ++ r ∷ [])
          (append_record-Holds file log r h k).1)
        (ap (λ m. ok (Map.get id m.nodes)) (apply_all-append log (r ∷ []) no_maps))

  pub load_node-Holds :
      (id : NodeId) (file : File) (log : List WalRecord)
      → Holds file log
      → load_node json id file ≡ ok (Map.get id (apply_all log no_maps).nodes)
  unfolding load_node
  load_node-Holds id file log h = rw (replay-Holds file log h) refl

  -- On a file that holds a log, a node that serde_json can write and read back is saved; the file then
  -- holds the log with one record more, the node is what its id loads, and every other id loads what it
  -- did before.
  pub save_node-Holds :
      (file : File) (log : List WalRecord) (n : Node)
      → Holds file log
      → IsJson json (put_node n)
      → ((save_node json n file).0 ≡ ok tt)
        × Holds (save_node json n file).1 (log ++ put_node n ∷ [])
        × (load_node json n.id (save_node json n file).1 ≡ ok (some n))
        × ((j : NodeId)
            → n.id ≢ j
            → load_node json j (save_node json n file).1 ≡ load_node json j file)
  unfolding apply_record
  save_node-Holds file log n h k =
      let (run, held) = append_record-Holds file log (put_node n) h k in
      let nodes = (apply_all log no_maps).nodes in
      (
        run,
        held,
        load_node-append n.id file log (put_node n) h k
            ∙ ap ok (ground (arith, Map.get-insert n.id n.id n nodes, nat_beq_iff n.id n.id)),
        λ j ne.
            load_node-append j file log (put_node n) h k
            ∙ ap ok (ground (arith, ne, Map.get-insert n.id j n nodes, nat_beq_iff n.id j))
            ∙ sym (load_node-Holds j file log h),
      )

  -- The same for a deletion: the id loads nothing, every other id what it did before.
  pub delete_node-Holds :
      (file : File) (log : List WalRecord) (id : NodeId)
      → Holds file log
      → IsJson json (drop_node id)
      → ((delete_node json id file).0 ≡ ok tt)
        × Holds (delete_node json id file).1 (log ++ drop_node id ∷ [])
        × (load_node json id (delete_node json id file).1 ≡ ok none)
        × ((j : NodeId)
            → id ≢ j
            → load_node json j (delete_node json id file).1 ≡ load_node json j file)
  unfolding apply_record
  delete_node-Holds file log id h k =
      let (run, held) = append_record-Holds file log (drop_node id) h k in
      let nodes = (apply_all log no_maps).nodes in
      (
        run,
        held,
        load_node-append id file log (drop_node id) h k
            ∙ ap ok (ground (arith, Map.get-remove id id nodes, nat_beq_iff id id)),
        λ j ne.
            load_node-append j file log (drop_node id) h k
            ∙ ap ok (ground (arith, ne, Map.get-remove id j nodes, nat_beq_iff id j))
            ∙ sym (load_node-Holds j file log h),
      )
