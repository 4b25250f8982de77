-- ===== src/Lib.antt =====
-- ferriskv, a multi-tenant key-value store: models of its storage node and proofs about them.
--
-- A node (crates/ferriskv-node) keeps tenants' entries in a storage backend (crates/ferriskv-core,
-- storage.rs), under keys that hold the tenant and a subspace (key.rs), as values that hold an expiry
-- (value.rs). A request reaches a gRPC handler (grpc.rs) with the principal that the authentication
-- layer (auth_layer.rs, crates/ferriskv-auth) has put into it; the handler checks it, has the service
-- carry it out and writes an audit event (audit.rs). `NodeService` (service.rs) admits a request by a
-- rate (throttle.rs), logs a write to the write-ahead log (wal.rs), stores it, registers its expiry
-- (ttl.rs), charges it to the tenant (quota.rs), tells the watchers (watch.rs) and drops the log once
-- the storage is durable. A sweeper deletes what has expired. A start (main.rs) validates the
-- configuration (config.rs), replays the log into the storage, loads the quotas and rebuilds the
-- index and the counters from a scan. An operator sets quotas over HTTP (admin.rs).
--
-- Files, and the code that each models. crates/ferriskv-core/src:
--   Core/Error: error.rs. Core/Utf8: `std::str::from_utf8`. Core/Limits: limits.rs. Core/Clock:
--   clock.rs. Core/Hashing: hashing.rs, `hrw_select`. Core/Key: key.rs and types.rs, `KeyCodec` and
--   `Subspace`. Core/Value: value.rs, `ValueCodec`. Core/Storage: storage.rs, a backend per child.
-- crates/ferriskv-auth/src:
--   Auth/Rbac: rbac.rs. Auth/ApiKey: api_key.rs. Auth/Jwt: jwt.rs. Auth/Error: `AuthError` of lib.rs.
-- crates/ferriskv-node/src:
--   Node/Wal: wal.rs; Node/Wal: frames and the header; Writer: the `BufWriter` over the file;
--   Segment: `open`, `append`, `sync` and `rotate`. Node/Ttl: ttl.rs, `TtlIndex`. Node/Sweeper:
--   `sweep_once` of ttl.rs; Wakeup and Running: `compute_wakeup` and `run_sweeper`. Node/Quota:
--   quota.rs. Node/Watch: watch.rs. Node/Throttle: throttle.rs.
--   Node/Service: service.rs, with Steps for its early returns, Boot for a start and Reads for `get`
--   and the scans.
--   Node/Status: `tonic::Status` as it is used. Node/AuthLayer: auth_layer.rs. Node/Audit: audit.rs.
--   Node/Grpc: grpc.rs; Node/Grpc: keys and scan bounds; Checks: the guards; Handlers: `get_impl`,
--   `put_impl`, `delete_impl` and `scan_impl`; Batch: `batch_impl`; WatchStream: `watch_impl` and
--   `watch_stream`; Calls: the `FerrisKv` service, one call after another.
--   Node/Config: config.rs. Node/Main: main.rs. Node/Admin: admin.rs, and `list` of quota.rs.
-- crates/ferriskv-coord/src:
--   Coord/Config, Coord/Placement and Coord/State: config.rs, placement.rs and state.rs, the map from
--   key ranges to shards, and the coordinator's term and leader.
-- Prelude: bytes, machine integers, maps and lists that these share.
--
-- State and operations. A struct behind a lock or a shared reference is a value; an operation takes
-- it and returns its result and the value after it, also where it fails, so that what a call changed
-- before an early return stays changed. A call runs alone: interleavings of threads are left out. A
-- `DashMap` is an association list with distinct keys, the `BTreeMap` of the index a list by
-- ascending expiry. A byte is a number, a byte string a list of numbers, and theorems that need
-- bytes below 256 say so. A `u64` keeps its saturation or its wrap written out; an `i64` is an
-- integer with the wrap of its subtraction. A time that the code reads from its clock is an argument.
--
-- Fuel. `is_utf8` and `parse_frames` loop on fuel, the length of their input. Each round consumes a
-- byte at least, and `parse_frames-IsSplit` shows that no frame is left where the loop ends.
--
-- Schedules. Where the runtime decides what happens next, its choices are an argument: for each round
-- of `watch_stream` and of `run_sweeper` a `Wake` says which branch of the `select!` is taken, when,
-- and what it brings.
--
-- Parameters: the checksum `crc32` and the hash `blake3`; the standard library's unstable sort, with
-- `IsSort` for what it promises; the engine `Fjall`, with `FjallLaws` for what its documentation
-- promises, where a write that fails may have been applied or not; `Broadcast` and `Governor` for a channel and a limiter;
-- `Jsonwebtoken` for the JWT library with its clock; `Json` for the record of a quota; `FileSystem`
-- for the paths of the configuration; `Disk` for how many bytes the operating system accepts of a
-- write.
--
-- Not modelled: the transport (tonic, axum), reading a settings file (config, serde), sockets, tasks
-- and signals of main.rs, metrics and log lines, threads, and the client. Opening files and
-- directories of the storage and the log is left to the caller.
pub mod Prelude
pub mod Core
pub mod Auth
pub mod Node
pub mod Coord
