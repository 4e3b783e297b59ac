-- ===== src/Conflict.antt =====
-- internal/conflict: how two versions of a key are merged.
pub mod Codec
pub mod Lww
pub mod Register
pub mod OrSet
pub mod Resolve
