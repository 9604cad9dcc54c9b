-- ===== src/Lib.antt =====
-- Verification of experimental_crdt: replicas of an observed-remove set that exchange deltas in an
-- anti-entropy protocol, and that collect tombstones in epochs agreed on through shared storage.
--
-- A replica is an engine, a task that owns a dotted version vector and a CRDT and takes requests
-- from a channel. Clients send operations; peers send deltas and pull requests, which arrive as
-- envelopes; a dissemination strategy decides what goes to which peer; a collector keeps a matrix
-- of what each peer knows and drops the tombstones that all members have seen.
--
-- - Base: shared names, Boolean tests on native numbers and strings, lists, results with an error.
-- - Map: hash maps and hash sets as association lists, with what each operation does to lookups.
-- - Clock: src/logical_clocks/dot_version_vector.rs. `forget` is `DotVersionVector::remove`; the
--   loops are functions of their own (merge_entries, delta_context, compare_nodes), each round one
--   more (merge_entry, delta_entry). Children: Effective (event, effective_counter), Merge, Delta,
--   Causality (descends, partial_cmp), VersionVector (vv_join to vv_lt).
-- - Proto: src/proto/mod.rs, the messages as data.
-- - OrSet: src/crdt/or_set.rs. Children: View (reading a set), Merge, Sync (snapshots and deltas),
--   Delivery (sequences of deltas), Local (apply_local), Gc (perform_gc), Elements, Codec.
-- - Crdt: src/crdt/mod.rs, the trait as a record, and the set as an implementation of it.
-- - Registry: src/peers/peer_registry.rs. Dissemination: src/network/dissemination.rs, a strategy
--   as a record of its methods.
-- - Frame: src/network/protocol.rs, length-delimited frames over a byte stream.
-- - Gc: src/gc/coordinator.rs and src/gc/storage.rs. Children: Exec (methods that read and write the
--   replica and the storage, and may fail or panic), Matrix, Stable (compute_stable_timestamp),
--   Initiate (initiate_gc: how it aborts, commits and fails), Observe (observe_epoch_change,
--   new_replica_bootstrap, and when it waits), Invariant, and
--   Storage, which is S3GcStorage of src/gc/storage.rs: its keys (Keys), the records that it stands
--   for and the requests to them (Records), and what each request does (Reads, Writes, Intents,
--   Refinement, Members).
-- - Server: src/server/peer_message_handler.rs; Server/Request, the requests of
--   src/engine/crdt_engine.rs; Server/Clients, src/server/client_requests_handler.rs;
--   Server/Shutdown and Server/Departure, handle_shutdown of src/server/mod.rs and what it leaves.
-- - Engine: src/engine/crdt_engine.rs, the handler of every request and the loop over them. Children:
--   Clock (fresh dots), Sync (pull requests and deltas between two engines), Safety, Clients (an
--   engine behind a client's connection), Sequential, Random (the removal of some element).
-- - Tcp: src/network/tcp_connection.rs. Children: Handshakes, Streams (reader and writer), Outbound
--   (spawn_outbound and its backoff). Simulated: src/network/simulated.rs.
-- - Storage: src/storage/s3_client.rs. Children: Store (what the service promises), Listing (pages),
--   Ends (that a listing ends).
-- - Discovery: src/peers/discovery.rs, keys and registrations. Children: Keys, Service (calls of the
--   store), Connector (src/peers/peer_connector.rs), Rounds (run_discovery_loop), Dialing, Reconcile,
--   Departure.
-- - Client: src/client/crdt_client.rs. Children: Lines (parse_line), Session (with the server),
--   Bench (run_bench, run_one_request_per_server).
-- - Text: the methods of `str` and the decimal numbers that the keys and lines are made of.
-- - Tests: examples and concrete runs.
--
-- The model. A `&mut self` method returns the new state. A panic is `none`, or `panics` in Gc. Hash
-- maps are association lists; where a map comes from outside, a theorem asks that no key stands
-- twice. Counters and epochs are natural numbers below 2 ^ 64; the additions (event, next_epoch,
-- next_round) wrap as in a release build, and theorems on events ask for room. The storage is a
-- state with one function for each call of `GcStorage` and `live_members`; a call may fail and may
-- find what other replicas wrote. The two waiting loops of the bootstrap take fuel, one unit for
-- each poll; running out of it is the outcome `polls`, not an error. One unit is enough where the
-- published state is of the current epoch; no number is enough in general, as the code waits for
-- other replicas. The loops over a connection's bytes take a unit of fuel for each byte and one more,
-- and every message takes its length prefix at least. The listing of keys takes no fuel: it runs on
-- `pages_end` of the AWS client, by which no chain of pages, each naming the next, goes on for ever
-- (Storage/Ends has it from a count of what is left).
--
-- Parameters: channels; the random choice of a peer; prost's bytes, serde's bytes and the encoding of
-- an element and of a text; `char::is_whitespace`; the calendar and the clock; the AWS client. What is
-- asked of the service stands in Storage/Store (an answered call reads and writes as documented, and a
-- delete touches no other key) and in Storage/Listing (what a token stands
-- for: the keys that are left).
-- A stream is the bytes that come in until its end; a socket that fails in the middle is left out. A
-- request to an engine's channel is handled at once.
--
-- Not modelled: timing and timer loops, logging and metrics, printed text; the start of the server and its
-- main loop, and the experiment driver. Of `compute_stable_timestamp` the vector `v_merge`, which
-- nothing reads, is left out.
pub mod Base
pub mod Map
pub mod Clock
pub mod Proto
pub mod OrSet
pub mod Crdt
pub mod Registry
pub mod Dissemination
pub mod Gc
pub mod Server
pub mod Engine
pub mod Frame
pub mod Tcp
pub mod Simulated
pub mod Client
pub mod Text
pub mod Storage
pub mod Discovery
pub mod Tests
