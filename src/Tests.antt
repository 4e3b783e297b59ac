-- ===== src/Tests.antt =====
-- Codecs that meet the interfaces, the theorems at concrete inputs, and tests of the definitions.
mod Codec
mod Values
mod Conflict
mod OrSet
mod Replica
mod Store
mod Cluster
mod Repair
mod Node
mod Sync
mod Net
mod Http
mod Server
mod Link
mod Command
