-- ===== src/Node.antt =====
-- internal/node: the replica, the coordinator over it, its timer, and the HTTP server; and the calls of the
-- fault injector, which run the handlers of a node.
pub mod Replica
pub mod Coordinator
pub mod Server
pub mod Lifecycle
pub mod Endpoint
