-- ===== src/Tests/Layered.antt =====
-- A database over an LRU cache of one node and a binary file as its storage.
use ad_graph_db.Base.{
  Bool-cases, inl, inr, list_beq_iff, ◌==◌, ℕ, Memᴰ, ◌↔◌, ◌≡◌, refl, List, [], ◌∷◌, true, none,
  some, arith, nat_eq, list_eq, length,
}
use ad_graph_db.Base.Map
use ad_graph_db.Core.{NodeId, Text, integer, Node, ok}
use ad_graph_db.Core.IdGenerator
use ad_graph_db.Core.IdGenerator.{next_node_id}
use ad_graph_db.Engine.AdjacencyList
use ad_graph_db.Engine.AdjacencyList.{AdjacencyListEngine}
use ad_graph_db.Cache.Lru
use ad_graph_db.Cache.Lru.{LruCache}
use ad_graph_db.Cache.Lru.Laws
use ad_graph_db.Index.LabelIndex
use ad_graph_db.Storage.BinaryFile
use ad_graph_db.Storage.BinaryFile.{File, open_file}
use ad_graph_db.Storage.BinaryFile.Contract.{laws, open_file-IsClosed}
use ad_graph_db.Tests.Durable.{any_text}
use ad_graph_db.Database.Config
use ad_graph_db.Database.Metrics
use ad_graph_db.Database.State.{Adapters, Database}
use ad_graph_db.Database.Methods.{
  insert_node, node_saved, get_node, delete_incident, delete_node, on_write, compact,
}
use ad_graph_db.Database.Coherent.{IsCoherent, get_node-load_node}
use ad_graph_db.Database.Writes.{
  AreU64, new_node, incident, insert_node-IsCoherent, get_node-insert_node, get_node-delete_node,
}
use ad_graph_db.Database.Statistics.{
  label_stats, sort_by, sort_insert, IsDescending, label_stats_lem,
}
use ad_graph_db.Index.PropertyIndex
use ad_graph_db.Index.PropertyIndex.{empty_field}
use ad_graph_db.Query.Ast.{
  PropertyCondition, match_nodes, matches_properties, node_matches, compare_values, compare_ord,
  i64_cmp,
}
use ad_graph_db.Query.Context.{nodes}
use ad_graph_db.Query.Executor.{execute}
use ad_graph_db.Database.Context.{context}
use ad_graph_db.Database.Answers.{IsIndexed, execute-context}
use mathlib.Core.List.Memᴰ
use ad_graph_db.Tests.Query.{whole, whole-IsIeee, above, above_five}

abbrev adapters : Adapters AdjacencyListEngine LruCache File
adapters = record {
  engine = AdjacencyList.port;
  cache = Lru.port;
  storage = BinaryFile.port any_text;
  floats = whole;
}

abbrev start : Database AdjacencyListEngine LruCache File
start = record {
  engine = AdjacencyList.new;
  cache = record { node_capacity = 1; edge_capacity = 1; nodes = []; edges = []; generation = 0 };
  storage = open_file none;
  label_index = LabelIndex.new;
  property_index = [];
  id_generator = IdGenerator.new;
  config = Config.default;
  metrics = Metrics.new;
  writes_since_compact = 0;
}

start-IsCoherent : IsCoherent adapters Lru.Laws.laws (laws any_text) start
unfolding Lru.clear laws
start-IsCoherent = (
  open_file-IsClosed any_text,
  λ id n e.
      let none_held : Lru.Laws.laws.held start.cache id ≡ none =
        Lru.Laws.laws.cleared id start.cache in
      absurd (ground (arith, e, none_held)),
)

abbrev person : Text
person = b'P' ∷ []

abbrev person_node : Node
person_node = new_node adapters Lru.Laws.laws (laws any_text) person [] start

person_node-IsStorable : (laws any_text).IsStorable person_node
unfolding laws next_node_id
person_node-IsStorable = record {
  id = omega arith;
  label = record { utf8 = refl; short = omega arith };
  properties = record { entries = tt; distinct = tt; count = omega arith };
}

get_node-load_node_example :
    ((get_node adapters 3 start).0 ≡ adapters.storage.load_node 3 (open_file none))
    × IsCoherent adapters Lru.Laws.laws (laws any_text) (get_node adapters 3 start).1
    × ((get_node adapters 3 start).1.storage ≡ open_file none)
get_node-load_node_example =
    get_node-load_node adapters Lru.Laws.laws (laws any_text) 3 start start-IsCoherent

insert_node-IsCoherent_example :
    IsCoherent adapters Lru.Laws.laws (laws any_text) (insert_node adapters person [] start).1
insert_node-IsCoherent_example =
    insert_node-IsCoherent adapters Lru.Laws.laws (laws any_text) person [] start start-IsCoherent
      person_node-IsStorable

first_id : (insert_node adapters person [] start).0 ≡ ok 0
unfolding insert_node next_node_id
first_id = refl

get_node-insert_node_example :
    (0 ≡ (next_node_id IdGenerator.new).0)
    × ((get_node adapters 0 (insert_node adapters person [] start).1).0
        ≡ ok (some (record { id = 0; label = person; properties = [] })))
get_node-insert_node_example =
    get_node-insert_node adapters Lru.Laws.laws (laws any_text) person [] 0 start start-IsCoherent
      person_node-IsStorable first_id

-- A database with one node.
abbrev one_row : Database AdjacencyListEngine LruCache File
one_row = (insert_node adapters person [] start).1

one_row-IsCoherent : IsCoherent adapters Lru.Laws.laws (laws any_text) one_row
one_row-IsCoherent =
    insert_node-IsCoherent adapters Lru.Laws.laws (laws any_text) person [] start start-IsCoherent
      person_node-IsStorable

deleted_0 : (delete_node adapters 0 one_row).0 ≡ ok tt
unfolding insert_node delete_node delete_incident get_node on_write node_saved compact next_node_id
    AdjacencyList.insert_node AdjacencyList.neighbors_outgoing AdjacencyList.neighbors_incoming
    Map.get Map.entry Map.insert Metrics.add_u64 Lru.get_node Lru.get_in Lru.put_node Lru.put_in
    Lru.make_room
deleted_0 = refl

one_row-no_edges : AreU64 (incident adapters Lru.Laws.laws (laws any_text) 0 one_row)
unfolding insert_node on_write node_saved compact next_node_id AdjacencyList.insert_node
    AdjacencyList.neighbors_outgoing AdjacencyList.neighbors_incoming Map.get Map.entry Map.insert
    Metrics.add_u64
one_row-no_edges = tt

get_node-delete_node_example : (get_node adapters 0 (delete_node adapters 0 one_row).1).0 ≡ ok none
get_node-delete_node_example =
    get_node-delete_node adapters Lru.Laws.laws (laws any_text) 0 one_row (omega arith)
      one_row-no_edges one_row-IsCoherent deleted_0

-- One person, and two cities.
abbrev labelled : Database AdjacencyListEngine LruCache File
labelled = record start {
  label_index = record { index = (person, 1 ∷ []) ∷ (b'C' ∷ [], 2 ∷ 3 ∷ []) ∷ [] };
}

cities_first : label_stats adapters labelled ≡ (b'C' ∷ [], 2) ∷ (person, 1) ∷ []
unfolding label_stats sort_by sort_insert LabelIndex.all_labels LabelIndex.label_count Map.get
cities_first = refl

label_stats_lem_example :
    IsDescending (label_stats adapters labelled)
    × ((l : Text) (n : ℕ)
        → Memᴰ {A = Text × ℕ} (l, n) (label_stats adapters labelled) ↔ (
            (ids : List NodeId) × (Map.get l labelled.label_index.index ≡ some ids)
            × (n ≡ length ids)))
label_stats_lem_example = label_stats_lem adapters labelled

-- A database with one node, which all its indexes list.
abbrev seven : Node
seven = record { id = 0; label = person; properties = (b'k' ∷ [], integer 7) ∷ [] }

abbrev one_seven : Database AdjacencyListEngine LruCache File
one_seven = record start {
  engine = AdjacencyList.insert_node 0 AdjacencyList.new;
  storage = BinaryFile.save_node seven (open_file none);
  label_index = record { index = (person, 0 ∷ []) ∷ [] };
  property_index = (b'k' ∷ [], record empty_field { integers = (7, 0 ∷ []) ∷ [] }) ∷ [];
}

seven-IsStorable : (laws any_text).IsStorable seven
unfolding laws
seven-IsStorable = record {
  id = omega arith;
  label = record { utf8 = refl; short = omega arith };
  properties = record {
    entries = (record { utf8 = refl; short = omega arith }, omega arith, tt);
    distinct = (unfold Map.get in refl, tt);
    count = omega arith;
  };
}

one_seven-IsCoherent : IsCoherent adapters Lru.Laws.laws (laws any_text) one_seven
one_seven-IsCoherent = (
  (laws any_text).save_good seven (open_file none) start-IsCoherent.0 seven-IsStorable,
  λ id n e.
      let none_held : Lru.Laws.laws.held start.cache id ≡ none =
        unfold Lru.clear in Lru.Laws.laws.cleared id start.cache in
      absurd (ground (arith, e, none_held)),
)

only_zero : (id : NodeId) → Memᴰ id (adapters.engine.all_node_ids one_seven.engine) ↔ (id ≡ 0)
unfolding AdjacencyList.insert_node AdjacencyList.all_node_ids Map.entry Map.insert Map.get
only_zero id = (λ m. Memᴰ.eq_of_singleton m, λ e. Memᴰ.head e)

zero_labelled :
    (l : Text) (id : NodeId)
    → Memᴰ id (LabelIndex.get one_seven.label_index l) ↔ ((id ≡ 0) × (person ≡ l))
unfolding LabelIndex.get Map.get
zero_labelled l id = elim (Bool-cases (person == l)) [
  | inl same ↦
      let e : person ≡ l = (list_beq_iff person l).0 same in
      rw same (λ m. (Memᴰ.eq_of_singleton m, e), λ (zero, _). Memᴰ.head zero)
  | inr other ↦ rw other (
    λ m. absurd (Memᴰ.not-nil m),
    λ (_, e). absurd (ground (arith, other, (list_beq_iff person l).1 e)),
  )
]

above_indexed :
    (c : PropertyCondition) (ids : List NodeId)
    → c ≡ above_five
    → PropertyIndex.query whole c.key c.op c.value one_seven.property_index ≡ some ids
    → (ids ≡ 0 ∷ []) × (matches_properties whole c seven.properties ≡ true)
above_indexed c ids e found =
    let picked = rw e at found in
    (
      unfold PropertyIndex.query PropertyIndex.field_query PropertyIndex.range_query_btree
            compare_ord i64_cmp Map.get in
          ground (arith, picked),
      rw e (unfold matches_properties compare_values compare_ord i64_cmp Map.get in refl),
    )

one_seven-IsIndexed : IsIndexed adapters Lru.Laws.laws (laws any_text) above one_seven
one_seven-IsIndexed = record {
  coherent = one_seven-IsCoherent;
  node_of = λ _. seven;
  stored = λ id m.
      rw ((only_zero id).0 m)
        ((laws any_text).saved seven (open_file none) start-IsCoherent.0 seven-IsStorable refl);
  labelled = λ l id. ground (arith, only_zero id, zero_labelled l id);
  indexed = λ c ids m found id.
      let (zero, fits) = above_indexed c ids (Memᴰ.eq_of_singleton m) found in
      rw zero (
        λ i. ((only_zero id).1 (Memᴰ.eq_of_singleton i), fits),
        λ (i, _). Memᴰ.head ((only_zero id).0 i),
      );
}

-- The witness lists no algorithm: the query calls none.
execute-context_example :
    (ns : List Node) × (d' : Database AdjacencyListEngine LruCache File) × (execute whole
        (context adapters (λ g s. []) (λ g s. []) (λ g s t. none))
        (match_nodes above)
        one_seven
      ≡ (ok (nodes ns), d'))
    × ((n : Node)
        → Memᴰ n ns ↔ (
            ((id : NodeId) × Memᴰ id (adapters.engine.all_node_ids one_seven.engine)
              × (adapters.storage.load_node id one_seven.storage ≡ ok (some n)))
            × (node_matches whole above n ≡ true)))
execute-context_example =
    execute-context adapters Lru.Laws.laws (laws any_text) (λ g s. []) (λ g s. []) (λ g s t. none)
      above one_seven one_seven-IsIndexed whole-IsIeee
