-- ===== src/Types.antt =====
-- internal/types: the data that the other packages share.
pub mod Version
pub mod Clock
pub mod Value
pub mod Printing
