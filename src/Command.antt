-- ===== src/Command.antt =====
-- The programs under cmd/: the node, and the client of its HTTP API.
pub mod Start
pub mod Query
pub mod Memctl
