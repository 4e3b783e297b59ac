-- ===== src/Net.antt =====
-- internal/net: the transports between the nodes, the fault injector and the HTTP client.
pub mod Faults
pub mod Transport
