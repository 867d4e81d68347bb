-- ===== src/Database/Coherent.antt =====
-- The cache agrees with the storage: what a read returns is what the storage holds.
use ad_graph_db.Base.{
  ◌≡◌, ◌≢◌, refl, sym, ap, ◌∙◌, Option, none, some, nat_eq, nat_beq_iff, ◌==◌, inl, inr, Bool-cases,
  arith,
}
use ad_graph_db.Core.{NodeId, Node, Result, ok, err, IsU64}
use ad_graph_db.Cache.Port.{CacheLaws}
use ad_graph_db.Storage.Port.{StorageLaws}
use ad_graph_db.Database.Metrics.{add_u64}
use ad_graph_db.Database.State.{Adapters, Database, and_then, on_storage}
use ad_graph_db.Database.Methods.{compact, compact_due, on_write, fetched, looked_up, get_node}

module _ {E C S : Type 0} (p : Adapters E C S) (cl : CacheLaws p.cache)
    (sl : StorageLaws p.storage) where
  -- What the cache holds of a node is what the storage loads.
  abbrev pub Agree : C → S → Type 0
  Agree c s =
      (id : NodeId) (n : Node) → cl.held c id ≡ some n → p.storage.load_node id s ≡ ok (some n)

  -- The storage is in a good state, and the cache agrees with it.
  abbrev pub IsCoherent : Database E C S → Type 0
  IsCoherent d = sl.IsGood d.storage × Agree d.cache d.storage

  -- The storage loads the same nodes.
  abbrev pub Same : S → S → Type 0
  Same s s' = (j : NodeId) → p.storage.load_node j s' ≡ p.storage.load_node j s

  -- A step leaves the same nodes in the storage, and the cache in agreement.
  abbrev pub Keeps : Database E C S → Database E C S → Type 0
  Keeps d d' = IsCoherent d → (IsCoherent d' × Same d.storage d'.storage)

  pub Keeps-trans : (a b c : Database E C S) → Keeps a b → Keeps b c → Keeps a c
  Keeps-trans a b c f g h =
      let (hb, same) = f h in let (hc, same') = g hb in (hc, λ j. same' j ∙ same j)

  pub Keeps-and_then :
      {A B : Type 0} (d : Database E C S) (x : Result A × Database E C S)
      (k : A → Database E C S → Result B × Database E C S)
      → Keeps d x.1
      → ((a : A) → x.0 ≡ ok a → Keeps x.1 (k a x.1).1)
      → Keeps d (and_then x k).1
  Keeps-and_then d (ok a, d') k first next = Keeps-trans d d' (k a d').1 first (next a refl)
  Keeps-and_then d (err e, d') k first next = first

  Agree-Same : (c : C) (s s' : S) → Agree c s → Same s s' → Agree c s'
  Agree-Same c s s' h same = λ id n e. same id ∙ h id n e

  -- A storage step that changes no node.
  pub Keeps-on_storage :
      {A : Type 0} (step : S → Result A × S) (d : Database E C S)
      → (sl.IsGood d.storage → sl.IsGood (step d.storage).1 × Same d.storage (step d.storage).1)
      → Keeps d (on_storage step d).1
  Keeps-on_storage step d keeps = λ (good, h).
      let (good', same) = keeps good in
      ((good', Agree-Same d.cache d.storage (step d.storage).1 h same), same)

  put-Agree :
      (c : C) (s : S) (n : Node)
      → Agree c s
      → p.storage.load_node n.id s ≡ ok (some n)
      → Agree (p.cache.put_node n c) s
  put-Agree c s n h e id v held = elim (Bool-cases (n.id == id)) [
    | inl same ↦
        let q : n.id ≡ id = ground (arith, nat_beq_iff n.id id) in
        let w : v ≡ n = cl.put_self n v c (ap (cl.held (p.cache.put_node n c)) q ∙ held) in
        sym (ap (λ j. p.storage.load_node j s) q) ∙ e ∙ ap (λ x. ok (some x)) (sym w)
    | inr other ↦
        h id v (cl.put_other n v id c (λ q. absurd (ground (arith, nat_beq_iff n.id id))) held)
  ]

  fetched-lem :
      (id : NodeId) (r : Result (Option Node)) (d : Database E C S)
      → IsCoherent d
      → p.storage.load_node id d.storage ≡ r
      → ((fetched p r d).0 ≡ r)
        × IsCoherent (fetched p r d).1
        × ((fetched p r d).1.storage ≡ d.storage)
  fetched-lem id (err x) d h e = (refl, h, refl)
  fetched-lem id (ok none) d h e = (refl, h, refl)
  fetched-lem id (ok (some n)) d (good, h) e =
      let stored = ap (λ j. p.storage.load_node j d.storage) (sl.keyed id n d.storage good e) ∙ e in
      (refl, (good, put-Agree d.cache d.storage n h stored), refl)

  looked_up-lem :
      (id : NodeId) (found : Option Node) (d : Database E C S)
      → IsCoherent d
      → cl.held d.cache id ≡ found
      → ((looked_up p id found d).0 ≡ p.storage.load_node id d.storage)
        × IsCoherent (looked_up p id found d).1
        × ((looked_up p id found d).1.storage ≡ d.storage)
  looked_up-lem id none d h e = fetched-lem id (p.storage.load_node id d.storage) _ h refl
  looked_up-lem id (some n) d (good, h) e = (sym (h id n e), (good, h), refl)

  -- Over an adapter that meets the contract, on a database whose storage is in a good state and whose
  -- cache agrees with it, a read returns what the storage loads, be it from the cache or not, leaves the
  -- storage as it was and the cache in agreement.
  pub get_node-load_node :
      (id : NodeId) (d : Database E C S)
      → IsCoherent d
      → ((get_node p id d).0 ≡ p.storage.load_node id d.storage)
        × IsCoherent (get_node p id d).1
        × ((get_node p id d).1.storage ≡ d.storage)
  unfolding get_node
  get_node-load_node id d (good, h) =
      looked_up-lem id (p.cache.get_node id d.cache).0
        (record d { cache = (p.cache.get_node id d.cache).1 })
        (good, λ j n e. h j n (sym (cl.get_keeps id j d.cache) ∙ e))
        (cl.get_keeps id id d.cache ∙ sym (cl.get_returns id d.cache))

  pub get_node-Keeps : (id : NodeId) (d : Database E C S) → Keeps d (get_node p id d).1
  get_node-Keeps id d h =
      let (_, h', same) = get_node-load_node id d h in (h', λ j. ap (p.storage.load_node j) same)

  compact-Keeps : (d : Database E C S) → Keeps d (compact p d).1
  unfolding compact
  compact-Keeps d =
      Keeps-and_then d (on_storage p.storage.compact d) _
        (Keeps-on_storage p.storage.compact d
          (λ good. (sl.compact_good d.storage good, λ j. sl.compact_keeps j d.storage good)))
        (λ _ _ (good, _).
          ((good, λ id n e. absurd (ground (arith, cl.cleared id d.cache))), λ j. refl))

  pub on_write-Keeps : (d : Database E C S) → Keeps d (on_write p d)
  unfolding on_write
  on_write-Keeps d h =
      let counted = record d { writes_since_compact = add_u64 d.writes_since_compact 1 } in
      let threshold = d.config.auto_compact_after_writes in
      elim (Bool-cases (compact_due p threshold counted.writes_since_compact)) [
        | inl due ↦ rw due (compact-Keeps counted h)
        | inr early ↦ rw early (h, λ j. refl)
      ]

  -- The cache takes the node that the storage has saved.
  pub put_saved-Agree :
      (n : Node) (c : C) (s : S)
      → Agree c s
      → sl.IsGood s
      → sl.IsStorable n
      → (p.storage.save_node n s).0 ≡ ok tt
      → Agree (p.cache.put_node n c) (p.storage.save_node n s).1
  put_saved-Agree n c s h good fits done id v held = elim (Bool-cases (n.id == id)) [
    | inl same ↦
        let q : n.id ≡ id = ground (arith, nat_beq_iff n.id id) in
        let w : v ≡ n = cl.put_self n v c (ap (cl.held (p.cache.put_node n c)) q ∙ held) in
        sym (ap (λ j. p.storage.load_node j (p.storage.save_node n s).1) q)
        ∙ sl.saved n s good fits done
        ∙ ap (λ x. ok (some x)) (sym w)
    | inr other ↦
        let ne : n.id ≢ id = λ q. absurd (ground (arith, nat_beq_iff n.id id)) in
        sl.save_other n id s good fits ne ∙ h id v (cl.put_other n v id c ne held)
  ]

  -- The cache drops the node that the storage has deleted.
  pub invalidated-Agree :
      (i : NodeId) (c : C) (s : S)
      → Agree c s
      → sl.IsGood s
      → IsU64 i
      → Agree (p.cache.invalidate_node i c) (p.storage.delete_node i s).1
  invalidated-Agree i c s h good small id v held = elim (Bool-cases (i == id)) [
    | inl same ↦
        let q : i ≡ id = ground (arith, nat_beq_iff i id) in
        absurd (
          ground (arith, cl.invalidated i c, q, held, ap (cl.held (p.cache.invalidate_node i c)) q))
    | inr other ↦
        let ne : i ≢ id = λ q. absurd (ground (arith, nat_beq_iff i id)) in
        sl.delete_other i id s good small ne ∙ h id v (cl.invalidate_other i id v c held)
  ]
