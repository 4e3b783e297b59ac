-- ===== src/Lib.antt =====
-- agent-memory: a replicated key-value store for the memory of agents. Every node has a copy of all
-- keys. Any node takes a client's request and coordinates it: a write goes to every peer and succeeds
-- at W acknowledgements, a read resolves R answers. Each key has a policy, by which two values of it
-- are merged: last write wins, a last-write-wins register, or an observed-remove set. Nodes converge
-- by read repair, hinted handoff and anti-entropy.
--
-- The parts, and the files that model them (paths of the code from the repository's root):
--   Types: internal/types/types.go and clock.go. `Version` with `Compare`, `Value` with `Equal`, the
--     policies, the messages, and the Lamport clock, whose time wraps at 2^64.
--   Conflict: internal/conflict. Lww is lww.go, Register is crdt_lwwreg.go, OrSet is crdt_orset.go,
--     Resolve is resolve.go (`Resolve`, `ResolveMany`, `Agreed`).
--   Store: internal/store. Kv is the map of kv.go, FactKey its two functions on keys, Wal is wal.go.
--   Cluster: internal/cluster/membership.go, with `ParsePeers` in Cluster/Parse.
--   Repair: internal/repair. Hints is hinted_handoff.go; Scan is anti_entropy.go and read_repair.go.
--   Node/Replica: internal/node/replica.go. `Apply` merges a value into the map, after the log.
--   Node/Coordinator: internal/node/coordinator.go. Write is `Write` and `Delete`, Read is `Read`, Sync
--     is `AntiEntropyRound` and `ReplayHints`; `ApplyReplicate`, `ServeRead` and `ServeDigest`, which
--     the transport calls on a peer, stand in the parent.
--   Node/Lifecycle: `New`, `Close` and the timer of internal/node/coordinator.go, as a step relation of
--     its loops.
--   Node/Server: internal/node/server.go. Client has the handlers of the client API, Peer those that
--     other nodes call, Debug the others, Routes the multiplexer, Numbers `parseInt`. Link runs the
--     HTTP transport of one node against the servers of the others.
--   Net/Faults: internal/net/faultnet.go, the fault injector of tests: partitions, isolation, drops.
--     Node/Endpoint has its endpoints, which call the handlers of a node.
--   Net/Transport: internal/net/transport.go, the HTTP client of a node with its switch against peers.
--   Command: Start is cmd/node/main.go, Memctl is cmd/memctl/main.go; Query is what net/url makes of
--     the URLs that memctl builds.
--   AgentApi: internal/agentapi/memory.go, facts and tags over the coordinator.
--   Prelude and Map are what the parts share; Tests has the concrete codecs, the theorems at concrete
--   inputs and runs of the definitions.
--
-- How the model corresponds to the code:
--   A Go string is the list of its code points and a byte slice the list of its bytes; nil and the
--   empty slice are one. A Go map is a list sorted by its keys, each key once, so that equal maps are
--   equal lists. `int` is the integers, without bounds; `uint64` wraps. A comparison is an `Ordering`.
--   Methods that hold a lock for their whole body are one step, a function from the old state to the
--   new one. `Clone` copies nothing, since values do not change here.
--   encoding/json is an interface: `Conflict.Codec.Codec` for the payloads and `Store.Wal.EntryCodec`
--   for the lines of the log. They ask that what was written is read back, and that a line of the log
--   has no line feed. Tests/Codec has an instance of each.
--   What the operating system does to a write of the log (`Io`), what becomes of a request and its
--   reply (`Fate`), and the order in which goroutines end and deadlines pass (`Event`, `Answer`) are
--   arguments, so that a theorem over all of them covers every failure and every interleaving of one
--   operation. A cluster is a `World`, which gives the node of each id; between the operations of one
--   node any requests of others may run (`Delivery`).
--   An HTTP request is its method, its path, its query and the bytes of its body, an answer its status
--   and its body. `Server.Json` is what the handlers read and print by encoding/json, `Transport.Wire`
--   what the transport does; `Link.Speaks` and `Memctl.Laws.Marshal` say that one end reads what the
--   other wrote, and `Link.Deployed` that an address is where the server of its peer listens. Tests
--   has an instance of each. `Client.Do` is a parameter of the calls.
--   The decimal digits of a number are printed with a fuel of 20, which is enough below 2^64. No other
--   loop needs fuel: each runs over a list. The int of `parseInt` is a residue of 64 bits.
--
-- Not modelled: sockets, processes and signals (`Start` and `Close` of the server, `main` behind the
-- start of the server), the parsing of flags, printing, and `MustJSON`; `Path` of the log; `SetHook`
-- and `Seed` of the fault injector; the test harness, which starts clusters for the tests. The texts
-- of errors are constructors here.
pub mod Prelude
pub mod Map
pub mod Types
pub mod Conflict
pub mod Store
pub mod Cluster
pub mod Repair
pub mod Net
pub mod Node
pub mod AgentApi
pub mod Command
mod Tests
