-- ===== src/Store.antt =====
-- internal/store: the map of current values, the keys of facts, and the write-ahead log.
pub mod Kv
pub mod FactKey
pub mod Wal
