-- ===== src/Database/Answers.antt =====
-- The database gives the executor what a query relies on, as long as its indexes say of the stored nodes what
-- the query asks for.
use ad_graph_db.Base.{
  ℕ, ◌≡◌, refl, sym, ap, ◌∙◌, ◌↔◌, inl, inr, List, [], ◌∷◌, map, Memᴰ, mem-retain, Option, some,
  Option-cases, true, nat_eq, list_eq, retain, arith,
}
use mathlib.Core.List.Memᴰ
use ad_graph_db.Core.{NodeId, Text, Node, Result, ok}
use ad_graph_db.Cache.Port.{CacheLaws}
use ad_graph_db.Storage.Port.{StorageLaws}
use ad_graph_db.Index.LabelIndex
use ad_graph_db.Index.PropertyIndex
use ad_graph_db.Core.Float.{IsIeee}
use ad_graph_db.Query.Ast.{
  PropertyCondition, NodeFilter, match_nodes, matches_properties, node_matches,
}
use ad_graph_db.Query.Context.{nodes}
use ad_graph_db.Query.Executor.{execute}
use ad_graph_db.Query.Executor.Sound.{ContextLaws, execute-match_nodes}
use ad_graph_db.Database.Metrics.{add_u64}
use ad_graph_db.Database.State.{Adapters, Database, and_then}
use ad_graph_db.Database.Methods.{get_node}
use ad_graph_db.Database.Context.{context}
use ad_graph_db.Database.Coherent.{IsCoherent, get_node-load_node}
use ad_graph_db.Database.Reads.{
  load_nodes, all_nodes, nodes_by_label, nodes_by_property, has_property, get_all_nodes,
  get_nodes_by_label,
}

module _ (node_of : NodeId → Node) where
  mem-map_node :
      (n : Node) (ids : List NodeId)
      → Memᴰ n (map node_of ids) ↔ ((id : NodeId) × Memᴰ id ids × (n ≡ node_of id))
  mem-map_node n ids = (
    λ m. let (id, found, e) = Memᴰ.of_map node_of ids m in (id, found, sym e),
    λ (id, found, e). rw e (Memᴰ.map node_of found),
  )

  -- Ids that are picked for their nodes give the nodes that fit.
  picked_iff :
      (P : Node → Type 0) (ids every : List NodeId)
      → ((id : NodeId) → Memᴰ id ids ↔ (Memᴰ id every × P (node_of id)))
      → (n : Node) → Memᴰ n (map node_of ids) ↔ (Memᴰ n (map node_of every) × P n)
  picked_iff P ids every fits n =
      let (from, to) = mem-map_node n ids in
      let (from_every, to_every) = mem-map_node n every in
      (
        λ m.
            let (id, found, e) = from m in
            let (listed, fit) = (fits id).0 found in (to_every (id, listed, e), rw e fit),
        λ (m, fit).
            let (id, listed, e) = from_every m in to (id, (fits id).1 (listed, rw (sym e) fit), e),
      )

module _ {E C S : Type 0} (p : Adapters E C S) (cl : CacheLaws p.cache)
    (sl : StorageLaws p.storage) where
  abbrev Db : Type 0
  Db = Database E C S

  -- The indexes are right for a filter: each node of the graph is stored, the label index has it under its
  -- label, and where a condition's field is indexed, the index answers with the nodes that the condition
  -- fits. An index looks only at values of the type of the condition's, so this is a restriction where a
  -- field holds both integers and floats.
  pub record IsIndexed (filter : NodeFilter) (d : Db) : Type 0 where
    pub coherent : IsCoherent p cl sl d
    pub node_of : NodeId → Node
    pub stored :
        (id : NodeId)
        → Memᴰ id (p.engine.all_node_ids d.engine)
        → p.storage.load_node id d.storage ≡ ok (some (node_of id))
    pub labelled :
        (l : Text) (id : NodeId)
        → Memᴰ id (LabelIndex.get d.label_index l)
          ↔ (Memᴰ id (p.engine.all_node_ids d.engine) × ((node_of id).label ≡ l))
    pub indexed :
        (c : PropertyCondition) (ids : List NodeId)
        → Memᴰ c filter.property_conditions
        → PropertyIndex.query p.floats c.key c.op c.value d.property_index ≡ some ids
        → (id : NodeId)
        → Memᴰ id ids ↔ (
            Memᴰ id (p.engine.all_node_ids d.engine)
            × (matches_properties p.floats c (node_of id).properties ≡ true))

  and_then_ok :
      {A B : Type 0} (a : A) (r : Result A) (d : Db) (next : A → Db → Result B × Db)
      → r ≡ ok a
      → and_then (r, d) next ≡ next a d
  and_then_ok a r d next h = rw h refl

  -- The loop of the bulk reads returns each stored node in turn.
  load_nodes-stored :
      (node_of : NodeId → Node) (ids : List NodeId) (d : Db)
      → IsCoherent p cl sl d
      → ((id : NodeId) → Memᴰ id ids → p.storage.load_node id d.storage ≡ ok (some (node_of id)))
      → (d' : Db) × (load_nodes p ids d ≡ (ok (map node_of ids), d'))
  unfolding load_nodes
  load_nodes-stored node_of [] d h stored = (d, refl)
  load_nodes-stored node_of (id ∷ ids) d h stored =
      let (reads, h', same) = get_node-load_node p cl sl id d h in
      let after = (get_node p id d).1 in
      let (d', rest) =
        load_nodes-stored node_of ids after h'
          (λ j m. ap (p.storage.load_node j) same ∙ stored j (Memᴰ.tail m)) in
      (
        d',
        and_then_ok (some (node_of id)) (get_node p id d).0 after _
              (reads ∙ stored id (Memᴰ.head refl))
            ∙ rw rest refl,
      )

  module _ (bfs dfs : E → NodeId → List NodeId)
      (dijkstra : E → NodeId → NodeId → Option (List NodeId × ℕ)) (filter : NodeFilter) (d : Db)
      (h : IsIndexed filter d) where
    abbrev every : List NodeId
    every = p.engine.all_node_ids d.engine

    abbrev stored_nodes : List Node
    stored_nodes = map h.node_of every

    -- What a bulk read of some of the graph's ids returns, from a database with other counters.
    read_ids :
        (ids : List NodeId) (d' : Db)
        → IsCoherent p cl sl d'
        → d'.storage ≡ d.storage
        → ((id : NodeId) → Memᴰ id ids → Memᴰ id every)
        → (d'' : Db) × (load_nodes p ids d' ≡ (ok (map h.node_of ids), d''))
    read_ids ids d' coherent same listed =
        load_nodes-stored h.node_of ids d' coherent
          (λ id m. ap (p.storage.load_node id) same ∙ h.stored id (listed id m))

    by_label :
        (l : Text)
        → (ns : List Node) × (d' : Db) × (get_nodes_by_label p l d ≡ (ok ns, d'))
          × ((n : Node) → Memᴰ n ns ↔ (Memᴰ n stored_nodes × (n.label ≡ l)))
    unfolding get_nodes_by_label nodes_by_label
    by_label l =
        let ids = LabelIndex.get d.label_index l in
        let (d', run) = read_ids ids _ h.coherent refl (λ id m. ((h.labelled l id).0 m).0) in
        (
          map h.node_of ids,
          d',
          run,
          picked_iff h.node_of (λ n. n.label ≡ l) ids every (h.labelled l),
        )

    -- The database behind the counter of a full scan, and of an index.
    abbrev scanning : Db
    scanning = record d {
      metrics = record d.metrics { full_node_scans = add_u64 d.metrics.full_node_scans 1 };
    }

    abbrev looking_up : Db
    looking_up = record d {
      metrics = record d.metrics { property_index_hits = add_u64 d.metrics.property_index_hits 1 };
    }

    by_property :
        (c : PropertyCondition)
        → Memᴰ c filter.property_conditions
        → (ns : List Node) × (d' : Db) × (nodes_by_property p c.key c.op c.value d ≡ (ok ns, d'))
          × ((n : Node)
              → Memᴰ n ns
                ↔ (Memᴰ n stored_nodes × (matches_properties p.floats c n.properties ≡ true)))
    unfolding nodes_by_property all_nodes
    by_property c m =
        elim (Option-cases (PropertyIndex.query p.floats c.key c.op c.value d.property_index)) [
          | inl unindexed ↦
              let (d', run) = read_ids every scanning h.coherent refl (λ id listed. listed) in
              (
                retain (has_property p c.key c.op c.value) stored_nodes,
                d',
                rw (unindexed, nodes_by_property) (rw (run, all_nodes) refl),
                λ n.
                    unfold matches_properties in
                    mem-retain (has_property p c.key c.op c.value) n stored_nodes,
              )
          | inr (ids, found) ↦
              let fits = h.indexed c ids m found in
              let (d', run) =
                read_ids ids looking_up h.coherent refl (λ id picked. ((fits id).0 picked).0) in
              (
                map h.node_of ids,
                d',
                rw (found, nodes_by_property) (rw run refl),
                picked_iff h.node_of (λ n. matches_properties p.floats c n.properties ≡ true) ids
                    every fits,
              )
        ]

    read_all : (d' : Db) × (get_all_nodes p d ≡ (ok stored_nodes, d'))
    unfolding get_all_nodes all_nodes
    read_all = read_ids every scanning h.coherent refl (λ id listed. listed)

    -- What the executor relies on holds of the database.
    abbrev layered_laws : ContextLaws p.floats (context p bfs dfs dijkstra) filter d
    layered_laws = record {
      content = stored_nodes;
      all_nodes = read_all;
      by_label = λ l _. by_label l;
      by_property = by_property;
    }

    -- Over adapters that meet their contracts, and with equal floating-point operands comparing alike: on a
    -- database whose indexes are right for the filter, as IsIndexed spells out, a node query succeeds and
    -- returns exactly the nodes that the storage loads under an id of the graph and that match the filter,
    -- whichever plan the statistics select.
    pub execute-context :
        IsIeee p.floats
        → (ns : List Node) × (d' : Db) × (execute p.floats
              (context p bfs dfs dijkstra)
              (match_nodes filter)
              d
            ≡ (ok (nodes ns), d'))
          × ((n : Node)
              → Memᴰ n ns ↔ (
                  ((id : NodeId) × Memᴰ id (p.engine.all_node_ids d.engine)
                    × (p.storage.load_node id d.storage ≡ ok (some n)))
                  × (node_matches p.floats filter n ≡ true)))
    execute-context ieee =
        let (ns, d', run, fits) =
          execute-match_nodes p.floats ieee (context p bfs dfs dijkstra) filter d layered_laws in
        (
          ns,
          d',
          run,
          λ n. (
            λ m.
                let (kept, fit) = (fits n).0 m in
                let (id, listed, e) = (mem-map_node h.node_of n every).0 kept in
                ((id, listed, h.stored id listed ∙ ap (λ x. ok (some x)) (sym e)), fit),
            λ ((id, listed, loads), fit).
                let same : n ≡ h.node_of id = ground (arith, sym loads ∙ h.stored id listed) in
                (fits n).1 ((mem-map_node h.node_of n every).1 (id, listed, same), fit),
          ),
        )
