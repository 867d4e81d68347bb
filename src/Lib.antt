-- ===== src/Lib.antt =====
-- A graph database: an append-only log on disk, a cache, an adjacency-list engine, two secondary
-- indexes, a query planner and transactions, behind one struct.
--
-- The program's parts and their files:
-- - Core: the data model (src/core/): values, nodes, edges, errors and the id generator. A u64 is a number
--   below 2 ^ 64; an i64 and an f64 are their 64-bit patterns, and arithmetic on floats is a parameter
--   (Core/Float); a String is the list of its UTF-8 bytes, and the test that bytes are UTF-8 is a parameter.
-- - Storage: the port (src/ports/storage.rs) and the binary log (src/adapters/storage/binary_file.rs).
--   Storage/Checksum is adler32, Storage/Codec the write_, read_, encode_ and decode_ functions,
--   Storage/Replay the loop of BinaryFileStorage::replay with its transaction buffer, and
--   Storage/BinaryFile the adapter's methods over a file that is absent or a list of bytes. The contract that the
--   database relies on is StorageLaws; Storage/BinaryFile/Contract fills it for the files that hold whole records
--   with no transaction open, and Storage/JsonFile/Contract for the files of lines that serde_json wrote. Storage/JsonFile is the adapter of JSON lines (src/adapters/storage/json_file.rs);
--   serde_json is a parameter, and what is relied on, that a record's text is one line that reads back as the
--   record, is a condition on the records.
-- - Cache: the port (src/ports/cache.rs), the LRU cache and the cache that holds nothing
--   (src/adapters/cache/). The laws of the port are Cache/Port; Cache/Lru/Laws and Cache/NoCache meet them.
-- - Engine: the port (src/ports/engine.rs) and AdjacencyListEngine (src/adapters/engine/adjacency_list.rs).
-- - Index: LabelIndex and PropertyIndex (src/adapters/index/), the latter over a sorted association list as
--   its BTreeMap.
-- - Query: filters (src/query/ast.rs), the planner (src/query/planner.rs) and the executor
--   (src/query/executor.rs) over the port DatabaseContext (src/ports/query_context.rs).
-- - Language: the query languages (src/query/languages/), from a text to a command. Language/Chars is what they
--   use of std's strings, Language/Parser what both parsers share, Language/Simple the tokenizer and parser of
--   simple.rs, Language/Cypher/Lexer and Language/Cypher the lexer and parser of cypher_lite.rs. Unicode's tables
--   and the reading of floats are parameters; a text that is ASCII needs no table. Print in both is the
--   grammar's own text of a command, against which the parsers are proved; Language/Agree sets them side by side.
-- - Algorithms: breadth-first and depth-first search (src/algorithms/bfs.rs and dfs.rs).
-- - Transaction: the staged operations (src/transaction/mod.rs).
-- - Database: LayeredGraphDatabase, its configuration and its counters (src/database/). Database/Methods
--   holds the writes and point reads, Database/Reads the bulk reads, Database/Statistics the statistics and
--   the explanation of a query, Database/Context the database as a value of the executor's port, Database/Commit
--   the transactions. Database/Answers says what the indexes must hold for a query.
-- - Tests: the theorems at concrete inputs.
-- - Base: lists, options, tests and std's HashMap as an association list (Base/Map).
--
-- How they interact: a write of the database goes to the storage first, then to the cache, the engine and
-- the indexes; a point read asks the cache, then the storage. The database is a record over three ports
-- that are given as parameters, as the source's trait objects are. A method that changes its state
-- returns the new state, also where it fails.
--
-- Loops: where a loop of the source might go on without end, an inductive family of its finite runs (Runs) stands
-- beside the function, and a loop that does not advance has none. The replay recurs on fuel, of which the number
-- of bytes is enough since every round reads at least one byte (Storage/Replay/Termination); the breadth-first
-- search recurs on fuel, of which the number of nodes and one more is enough (Algorithms/Bfs/Correct), and the
-- depth-first search on fuel, of which the number of edges and one more is enough (Algorithms/Dfs/Correct). The
-- conditions of a WHERE recur on the number of tokens (Language/Parser/Runs) and CypherLite's lexer on the number
-- of characters (Language/Cypher/Lexer/Termination), which are enough as each round takes one. All other loops
-- recur on their list.
--
-- The order in which a HashMap is iterated is that of the association list. Counters wrap at 2 ^ 64 as in a
-- release build.
--
-- Not modelled: Dijkstra's algorithm, which the executor's port takes as an argument, the concurrent wrapper, the
-- command line, the server and the runbook; errors of the operating system on reads and writes of the log;
-- messages on standard error; conversions to text.
pub mod Base
pub mod Core
pub mod Engine
pub mod Storage
pub mod Cache
pub mod Index
pub mod Query
pub mod Algorithms
pub mod Transaction
pub mod Database
pub mod Tests
pub mod Language
