-- ===== src/Database/Writes.antt =====
-- What a read returns after a write of `LayeredGraphDatabase` (src/database/layered.rs).
use ad_graph_db.Base.{
  ◌≡◌, refl, sym, ap, ◌∙◌, List, [], ◌∷◌, ◌++◌, map, Option, none, some, ◌⊎◌, inl, inr, arith,
}
use ad_graph_db.Core.{NodeId, EdgeId, Text, Properties, Node, GraphError, Result, ok, err, IsU64}
use ad_graph_db.Core.IdGenerator.{next_node_id}
use ad_graph_db.Cache.Port.{CacheLaws}
use ad_graph_db.Storage.Port.{StorageLaws}
use ad_graph_db.Database.State.{Adapters, Database, and_then, on_storage}
use ad_graph_db.Database.Methods.{
  on_write, node_saved, insert_node, get_node, delete_incident, unindexed, node_deleted,
  delete_node,
}
use ad_graph_db.Database.Coherent.{
  IsCoherent, Keeps, Keeps-and_then, Keeps-on_storage, get_node-load_node, get_node-Keeps,
  on_write-Keeps, put_saved-Agree, invalidated-Agree,
}

Result-cases :
    {A : Type 0} (r : Result A) → ((e : GraphError) × (r ≡ err e)) ⊎ ((a : A) × (r ≡ ok a))
Result-cases (err e) = inl (e, refl)
Result-cases (ok a) = inr (a, refl)

-- A chain that returned a value went through its first step.
and_then-ok :
    {D A B : Type 0} (x : Result A × D) (k : A → D → Result B × D) (b : B)
    → (and_then x k).0 ≡ ok b
    → (a : A) × (x.0 ≡ ok a) × (and_then x k ≡ k a x.1)
and_then-ok (ok a, d) k b h = (a, refl, refl)
and_then-ok (err e, d) k b h = absurd (ground arith)

-- Identifiers that are numbers of 64 bits, which every `EdgeId` is.
abbrev pub AreU64 : List EdgeId → Type 0
AreU64 [] = Unit
AreU64 (e ∷ es) = IsU64 e × AreU64 es

module _ {E C S : Type 0} (p : Adapters E C S) (cl : CacheLaws p.cache)
    (sl : StorageLaws p.storage) where
  abbrev Db : Type 0
  Db = Database E C S

  -- The node of an insertion, and the database that the insertion saves it from.
  abbrev pub new_node : Text → Properties → Db → Node
  new_node label props d = record {
    id = (next_node_id d.id_generator).0;
    label = label;
    properties = props;
  }

  abbrev drawn : Db → Db
  drawn d = record d { id_generator = (next_node_id d.id_generator).1 }

  abbrev stored : Node → Db → Db
  stored n d = record d { storage = (p.storage.save_node n d.storage).1 }

  -- Behind a save that succeeded.
  behind_save :
      (n : Node) (d : Db)
      → IsCoherent p cl sl d
      → sl.IsStorable n
      → (p.storage.save_node n d.storage).0 ≡ ok tt
      → let d' = on_write p (node_saved p n (stored n d)) in
        IsCoherent p cl sl d' × (p.storage.load_node n.id d'.storage ≡ ok (some n))
  unfolding node_saved
  behind_save n d (good, h) fits done =
      let (h', same) = on_write-Keeps p cl sl (node_saved p n (stored n d)) (
        sl.save_good n d.storage good fits,
        put_saved-Agree p cl sl n d.cache d.storage h good fits done,
      ) in
      (h', same n.id ∙ sl.saved n d.storage good fits done)

  -- Over an adapter that meets the contract, an insertion of a node that the storage can hold keeps the
  -- storage in a good state and the cache in agreement with it, also where the insertion fails.
  pub insert_node-IsCoherent :
      (label : Text) (props : Properties) (d : Db)
      → IsCoherent p cl sl d
      → sl.IsStorable (new_node label props d)
      → IsCoherent p cl sl (insert_node p label props d).1
  unfolding insert_node
  insert_node-IsCoherent label props d (good, h) fits =
      let n = new_node label props d in
      elim (Result-cases (p.storage.save_node n d.storage).0) [
        | inl (e, bad) ↦ rw bad (
          sl.save_good n d.storage good fits,
          λ id v held. sl.save_failed n e id d.storage good bad ∙ h id v held,
        )
        | inr (_, done) ↦ rw done (behind_save n (drawn d) (good, h) fits done).0
      ]

  -- Over an adapter that meets the contract, on a database whose storage is in a good state and whose
  -- cache agrees with it, an insertion of a node that the storage can hold, when it succeeds, returns the
  -- next id, and a read of that id then returns the node as it was given, whatever the cache evicts and
  -- whether the write compacts the log or not.
  pub get_node-insert_node :
      (label : Text) (props : Properties) (id : NodeId) (d : Db)
      → IsCoherent p cl sl d
      → sl.IsStorable (new_node label props d)
      → (insert_node p label props d).0 ≡ ok id
      → (id ≡ (next_node_id d.id_generator).0)
        × ((get_node p id (insert_node p label props d).1).0
            ≡ ok (some (record { id = id; label = label; properties = props })))
  unfolding insert_node
  get_node-insert_node label props id d h fits returned =
      let n = new_node label props d in
      let final = on_write p (node_saved p n (stored n (drawn d))) in
      let step = on_storage (p.storage.save_node n) (drawn d) in
      let (_, done, run) =
        and_then-ok step (λ _ d'. (ok n.id, on_write p (node_saved p n d'))) id returned in
      let q : id ≡ n.id = ground (arith, ap (λ r. r.0) run) in
      let (h', loads) = behind_save n (drawn d) h fits done in
      (
        q,
        ap (λ r. (get_node p id r.1).0) run
            ∙ ap (λ i. (get_node p i final).0) q
            ∙ (get_node-load_node p cl sl n.id final h').0
            ∙ loads
            ∙ ap (λ i. ok (some (record { id = i; label = label; properties = props }))) (sym q),
      )

  -- A deletion drops edges of the storage and of the cache only.
  delete_incident-Keeps :
      (es : List EdgeId) (d : Db) → AreU64 es → Keeps p cl sl d (delete_incident p es d).1
  unfolding delete_incident
  delete_incident-Keeps [] d small = λ h. (h, λ j. refl)
  delete_incident-Keeps (e ∷ es) d (small, rest) =
      Keeps-and_then p cl sl d (on_storage (p.storage.delete_edge e) d) _
        (Keeps-on_storage p cl sl (p.storage.delete_edge e) d (λ good. (
          sl.delete_edge_good e d.storage good small,
          λ j. sl.delete_edge_keeps e j d.storage good small,
        )))
        (λ _ _ (good, h).
          let s = (p.storage.delete_edge e d.storage).1 in
          delete_incident-Keeps es
            (record d { storage = s; cache = p.cache.invalidate_edge e d.cache }) rest
            (good, λ id v held. h id v (sym (cl.invalidate_edge_keeps e id d.cache) ∙ held)))

  unindexed-Keeps :
      (id : NodeId) (found : Option Node) (d : Db) → Keeps p cl sl d (unindexed p id found d)
  unindexed-Keeps id none d = λ h. (h, λ j. refl)
  unindexed-Keeps id (some n) d = λ h. (h, λ j. refl)

  abbrev dropped : NodeId → Db → Db
  dropped id d = node_deleted p id (record d { storage = (p.storage.delete_node id d.storage).1 })

  dropped-IsCoherent :
      (id : NodeId) (d : Db) → IsU64 id → IsCoherent p cl sl d → IsCoherent p cl sl (dropped id d)
  dropped-IsCoherent id d small (good, h) = (
    sl.delete_good id d.storage good small,
    invalidated-Agree p cl sl id d.cache d.storage h good small,
  )

  abbrev finish : NodeId → Db → Result {0} Unit × Db
  finish id d =
      and_then (on_storage (p.storage.delete_node id) d)
        (λ _ d'. (ok tt, on_write p (node_deleted p id d')))

  finish-lem :
      (id : NodeId) (d : Db)
      → IsU64 id
      → IsCoherent p cl sl d
      → IsCoherent p cl sl (finish id d).1
        × ((finish id d).0 ≡ ok tt → p.storage.load_node id (finish id d).1.storage ≡ ok none)
  finish-lem id d small (good, h) = elim (Result-cases (p.storage.delete_node id d.storage).0) [
    | inl (e, bad) ↦ rw bad (
      (
        sl.delete_good id d.storage good small,
        λ i v held. sl.delete_failed id e i d.storage good bad ∙ h i v held,
      ),
      λ r. absurd (ground (arith, r)),
    )
    | inr (_, done) ↦
        let (h', same) =
          on_write-Keeps p cl sl (dropped id d) (dropped-IsCoherent id d small (good, h)) in
        rw done (h', λ _. same id ∙ sl.deleted id d.storage good small done)
  ]

  -- What is to be shown of a deletion's outcome.
  abbrev Deleted : NodeId → Result {0} Unit × Db → Type 0
  Deleted id r =
      IsCoherent p cl sl r.1 × (r.0 ≡ ok tt → p.storage.load_node id r.1.storage ≡ ok none)

  Deleted-and_then :
      {A : Type 0} (id : NodeId) (d : Db) (x : Result A × Db) (k : A → Db → Result {0} Unit × Db)
      → Keeps p cl sl d x.1
      → ((a : A) → IsCoherent p cl sl x.1 → Deleted id (k a x.1))
      → IsCoherent p cl sl d
      → Deleted id (and_then x k)
  Deleted-and_then id d (ok a, d') k keeps next h = next a (keeps h).0
  Deleted-and_then id d (err e, d') k keeps next h = ((keeps h).0, λ r. absurd (ground (arith, r)))

  -- The edges of a node, as a deletion asks the engine for them.
  abbrev pub incident : NodeId → Db → List EdgeId
  incident id d =
      map (λ n. n.edge_id)
        (p.engine.neighbors_outgoing d.engine id ++ p.engine.neighbors_incoming d.engine id)

  delete_node-Deleted :
      (id : NodeId) (d : Db)
      → IsU64 id
      → AreU64 (incident id d)
      → IsCoherent p cl sl d
      → Deleted id (delete_node p id d)
  unfolding delete_node
  delete_node-Deleted id d small edges =
      let swept = delete_incident p (incident id d) d in
      Deleted-and_then id d swept _ (delete_incident-Keeps (incident id d) d edges) (λ _.
        Deleted-and_then id swept.1 (get_node p id swept.1) _ (get_node-Keeps p cl sl id swept.1)
          (λ found h.
            let read = (get_node p id swept.1).1 in
            finish-lem id (unindexed p id found read) small (unindexed-Keeps id found read h).0))

  -- Over an adapter that meets the contract, on a database whose storage is in a good state and whose
  -- cache agrees with it, a read of a node behind its successful deletion finds no node; the node's id
  -- and those of its edges are numbers of 64 bits.
  pub get_node-delete_node :
      (id : NodeId) (d : Db)
      → IsU64 id
      → AreU64 (incident id d)
      → IsCoherent p cl sl d
      → (delete_node p id d).0 ≡ ok tt
      → (get_node p id (delete_node p id d).1).0 ≡ ok none
  get_node-delete_node id d small edges h done =
      let (h', gone) = delete_node-Deleted id d small edges h in
      (get_node-load_node p cl sl id (delete_node p id d).1 h').0 ∙ gone done
