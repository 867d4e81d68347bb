-- ===== src/Storage.antt =====
-- The durable layer: the port (src/ports/storage.rs) and the binary write-ahead log
-- (src/adapters/storage/binary_file.rs), from its bytes up to its replay; and the log of JSON lines
-- (src/adapters/storage/json_file.rs).
pub mod Port
pub mod Bytes
pub mod Checksum
pub mod Codec
pub mod Replay
pub mod BinaryFile
pub mod JsonFile
