-- ===== src/Tests/Json.antt =====
-- A file of JSON lines, with a letter for each record.
use ad_graph_db.Base.{
  ◌+◌, ◌≡◌, ◌≢◌, refl, [], ◌∷◌, Option, none, some, true, false, nat_eq, list_eq, ◌==◌,
  if◌then◌else◌,
}
use ad_graph_db.Core.{Text, Node, NodeId, EdgeId, integer, ok}
use ad_graph_db.Language.Chars.{codes}
use ad_graph_db.Storage.JsonFile.{
  WalRecord, put_node, put_edge, drop_node, drop_edge, JsonOps, no_maps, live_records, replay,
  save_node, delete_node, load_node, load_edge, compact,
}
use ad_graph_db.Storage.JsonFile.Lines.{IsJson, apply_all}
use ad_graph_db.Storage.JsonFile.Log.{Holds, save_node-Holds, delete_node-Holds}
use ad_graph_db.Storage.JsonFile.Compaction.{load_node-compact}

abbrev city : Node
city = record { id = 1; label = codes "City"; properties = (codes "rank", integer 1) ∷ [] }

abbrev town : Node
town = record { id = 2; label = codes "Town"; properties = [] }

abbrev letter : WalRecord → Option Text
letter (put_node n) = some ((b'@' + n.id) ∷ [])
letter (drop_node id) = some ((b'`' + id) ∷ [])
letter (put_edge e) = none
letter (drop_edge id) = none

abbrev letters : JsonOps
letters = record {
  to_string = letter;
  from_str = λ s.
      if s == codes "A"
      then some (put_node city)
      else if s == codes "B"
      then some (put_node town)
      else if s == codes "a"
      then some (drop_node 1)
      else none;
  is_utf8 = λ s. true;
  is_blank = λ s. false;
}

city-IsJson : IsJson letters (put_node city)
city-IsJson = record {
  line = codes "A";
  written = refl;
  read = refl;
  utf8 = refl;
  visible = refl;
  one_line = refl;
}

town-IsJson : IsJson letters (put_node town)
town-IsJson = record {
  line = codes "B";
  written = refl;
  read = refl;
  utf8 = refl;
  visible = refl;
  one_line = refl;
}

gone-IsJson : IsJson letters (drop_node 1)
gone-IsJson = record {
  line = codes "a";
  written = refl;
  read = refl;
  utf8 = refl;
  visible = refl;
  one_line = refl;
}

one_city : Holds letters (some (codes "A\n")) (put_node city ∷ [])
unfolding city-IsJson
one_city = record { records = (city-IsJson, tt); bytes = refl }

save_node-Holds_example :
    ((save_node letters town (some (codes "A\n"))).0 ≡ ok tt)
    × Holds letters
        (save_node letters town (some (codes "A\n"))).1
        (put_node city ∷ put_node town ∷ [])
    × (load_node letters 2 (save_node letters town (some (codes "A\n"))).1 ≡ ok (some town))
    × ((j : NodeId)
        → 2 ≢ j
        → load_node letters j (save_node letters town (some (codes "A\n"))).1
          ≡ load_node letters j (some (codes "A\n")))
save_node-Holds_example =
    save_node-Holds letters (some (codes "A\n")) (put_node city ∷ []) town one_city town-IsJson

delete_node-Holds_example :
    ((delete_node letters 1 (some (codes "A\n"))).0 ≡ ok tt)
    × Holds letters
        (delete_node letters 1 (some (codes "A\n"))).1
        (put_node city ∷ drop_node 1 ∷ [])
    × (load_node letters 1 (delete_node letters 1 (some (codes "A\n"))).1 ≡ ok none)
    × ((j : NodeId)
        → 1 ≢ j
        → load_node letters j (delete_node letters 1 (some (codes "A\n"))).1
          ≡ load_node letters j (some (codes "A\n")))
delete_node-Holds_example =
    delete_node-Holds letters (some (codes "A\n")) (put_node city ∷ []) 1 one_city gone-IsJson

-- The city was saved and deleted, the town stays.
deleted_city :
    Holds letters (some (codes "A\na\nB\n")) (put_node city ∷ drop_node 1 ∷ put_node town ∷ [])
unfolding city-IsJson gone-IsJson town-IsJson
deleted_city = record { records = (city-IsJson, (gone-IsJson, (town-IsJson, tt))); bytes = refl }

load_node-compact_example :
    ((compact letters (some (codes "A\na\nB\n"))).0 ≡ ok tt)
    × Holds letters
        (compact letters (some (codes "A\na\nB\n"))).1
        (live_records (apply_all (put_node city ∷ drop_node 1 ∷ put_node town ∷ []) no_maps))
    × (replay letters (compact letters (some (codes "A\na\nB\n"))).1
        ≡ replay letters (some (codes "A\na\nB\n")))
    × ((id : NodeId)
        → load_node letters id (compact letters (some (codes "A\na\nB\n"))).1
          ≡ load_node letters id (some (codes "A\na\nB\n")))
    × ((id : EdgeId)
        → load_edge letters id (compact letters (some (codes "A\na\nB\n"))).1
          ≡ load_edge letters id (some (codes "A\na\nB\n")))
load_node-compact_example =
    load_node-compact letters (some (codes "A\na\nB\n"))
      (put_node city ∷ drop_node 1 ∷ put_node town ∷ []) deleted_city
