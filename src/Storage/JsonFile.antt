-- ===== src/Storage/JsonFile.antt =====
-- The methods of `JsonFileStorage` (src/adapters/storage/json_file.rs). The file is its bytes, or absent; the
-- operating system's reads and writes succeed.
pub mod Lines
pub mod Log
pub mod Compaction
pub mod Contract
use ad_graph_db.Base.{
  ℕ, zero, suc, ◌+◌, List, [], ◌∷◌, ◌++◌, map, Bool, true, false, not, Option, none, some, is_empty,
  nat_eq, ◌==◌, if◌then◌else◌,
}
use ad_graph_db.Base.Map
use ad_graph_db.Core.{
  NodeId, EdgeId, Text, Node, Edge, GraphError, storage_io, serialization_error,
  deserialization_error, invalid_json, Result, ok, err,
}
use ad_graph_db.Storage.Port.{StoragePort}

pub data WalRecord : Type 0 where
  put_node : Node → WalRecord
  put_edge : Edge → WalRecord
  drop_node : NodeId → WalRecord
  drop_edge : EdgeId → WalRecord

-- What serde_json and std decide: the text of a record where it has one, the record of a text, whether bytes
-- are UTF-8 and whether a line is blank.
pub record JsonOps : Type 0 where
  pub to_string : WalRecord → Option Text
  pub from_str : Text → Option WalRecord
  pub is_utf8 : Text → Bool
  pub is_blank : Text → Bool

abbrev pub File : Type 0
File = Option Text

-- The maps that `replay` builds.
pub record Maps : Type 0 where
  pub nodes : List (NodeId × Node)
  pub edges : List (EdgeId × Edge)

abbrev pub no_maps : Maps
no_maps = record { nodes = []; edges = [] }

unfoldable pub apply_record : WalRecord → Maps → Maps
apply_record (put_node n) m = record m { nodes = Map.insert n.id n m.nodes }
apply_record (put_edge e) m = record m { edges = Map.insert e.id e m.edges }
apply_record (drop_node id) m = record m { nodes = Map.remove id m.nodes }
apply_record (drop_edge id) m = record m { edges = Map.remove id m.edges }

-- A line less the carriage return before its end.
unfoldable pub strip_return : Text → Text
strip_return [] = []
strip_return (c ∷ []) = if c == b'\r' then [] else c ∷ []
strip_return (c ∷ d ∷ s) = c ∷ strip_return (d ∷ s)

-- `BufRead::lines`, with what was read of the line.
unfoldable pub lines_from : Text → Text → List Text
lines_from current [] = if is_empty current then [] else current ∷ []
lines_from current (c ∷ s) =
    let next_line = strip_return current ∷ lines_from [] s in
    let same_line = lines_from (current ++ c ∷ []) s in if c == b'\n' then next_line else same_line

-- `?` behind a call.
abbrev pub and_then : {A B : Type 0} → Result A → (A → Result B) → Result B
and_then (ok a) f = f a
and_then (err e) f = err e

abbrev pub applied : ℕ → Maps → Option WalRecord → Result Maps
applied number m none = err (deserialization_error (invalid_json number))
applied number m (some r) = ok (apply_record r m)

abbrev pub ended : Option Text → Result Text
ended none = err (serialization_error [])
ended (some line) = ok (line ++ b'\n' ∷ [])

-- The live records, nodes first.
abbrev pub live_records : Maps → List WalRecord
live_records m = map (λ e. put_node e.1) m.nodes ++ map (λ e. put_edge e.1) m.edges

unfoldable pub append_bytes : Text → File → File
append_bytes bytes none = some bytes
append_bytes bytes (some old) = some (old ++ bytes)

-- `JsonFileStorage::open`
unfoldable pub open_file : File → File
open_file none = some []
open_file (some bytes) = some bytes

module _ (json : JsonOps) where
  -- A record's line, with its end.
  unfoldable pub record_line : WalRecord → Result Text
  record_line r = ended (json.to_string r)

  abbrev pub written : File → Result Text → Result {0} Unit × File
  written file (ok line) = (ok tt, append_bytes line file)
  written file (err e) = (err e, file)

  unfoldable pub append_record : WalRecord → File → Result {0} Unit × File
  append_record r file = written file (record_line r)

  -- One line of the loop.
  unfoldable pub replay_line : ℕ → Text → Maps → Result Maps
  replay_line number line m =
      if not (json.is_utf8 line)
      then err (storage_io [])
      else if json.is_blank line
      then ok m
      else applied number m (json.from_str line)

  unfoldable pub replay_lines : ℕ → List Text → Maps → Result Maps
  replay_lines number [] m = ok m
  replay_lines number (line ∷ lines) m =
      and_then (replay_line (number + 1) line m) (replay_lines (number + 1) lines)

  unfoldable pub replay : File → Result Maps
  replay none = ok no_maps
  replay (some bytes) = replay_lines 0 (lines_from [] bytes) no_maps

  abbrev pub save_node : Node → File → Result {0} Unit × File
  save_node n = append_record (put_node n)

  abbrev pub delete_node : NodeId → File → Result {0} Unit × File
  delete_node id = append_record (drop_node id)

  abbrev pub save_edge : Edge → File → Result {0} Unit × File
  save_edge e = append_record (put_edge e)

  abbrev pub delete_edge : EdgeId → File → Result {0} Unit × File
  delete_edge id = append_record (drop_edge id)

  unfoldable pub load_node : NodeId → File → Result (Option Node)
  load_node id file = and_then (replay file) λ m. ok (Map.get id m.nodes)

  unfoldable pub load_edge : EdgeId → File → Result (Option Edge)
  load_edge id file = and_then (replay file) λ m. ok (Map.get id m.edges)

  unfoldable pub load_all_nodes : File → Result (List Node)
  load_all_nodes file = and_then (replay file) λ m. ok (Map.values m.nodes)

  unfoldable pub load_all_edges : File → Result (List Edge)
  load_all_edges file = and_then (replay file) λ m. ok (Map.values m.edges)

  -- The lines of the temporary file.
  unfoldable pub record_lines : List WalRecord → Result Text
  record_lines [] = ok []
  record_lines (r ∷ rs) =
      and_then (record_line r) λ line. and_then (record_lines rs) λ lines. ok (line ++ lines)

  abbrev pub renamed : File → Result Text → Result {0} Unit × File
  renamed file (ok bytes) = (ok tt, some bytes)
  renamed file (err e) = (err e, file)

  -- A compaction that fails leaves the file.
  unfoldable pub compact : File → Result {0} Unit × File
  compact file = renamed file (and_then (replay file) λ m. record_lines (live_records m))

-- The adapter as a value of the port; the size and the markers are the port's defaults.
abbrev pub port : JsonOps → StoragePort File
port json = record {
  save_node = save_node json;
  load_node = load_node json;
  delete_node = delete_node json;
  save_edge = save_edge json;
  load_edge = load_edge json;
  delete_edge = delete_edge json;
  load_all_nodes = load_all_nodes json;
  load_all_edges = load_all_edges json;
  compact = compact json;
  wal_size_bytes = λ file. 0;
  begin_wal_transaction = λ id file. (ok tt, file);
  commit_wal_transaction = λ id file. (ok tt, file);
  rollback_wal_transaction = λ id file. (ok tt, file);
}
