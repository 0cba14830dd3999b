-- ===== src/Lib.antt =====
-- docker-coredns-sync: DNS records for the containers of a host, kept in etcd for CoreDNS.
--
-- The program and its model. The event generator (internal/event) turns Docker's messages into
-- container events. The engine (internal/core/engine.go) handles them one after the other: the labels of
-- a container give record intents, and the state tracker (internal/state) holds those of the containers
-- that run. On each tick the engine takes a lock in etcd, lists what the registry (internal/registry)
-- holds, filters out the desired intents that conflict with each other, compares the rest with the list,
-- removes and registers records, and releases the lock. A heartbeat key under a lease tells the other
-- hosts that this one lives. The readiness status (internal/httpserver) hears of the connection and of
-- the result of each tick.
--
--   Prelude      names of the libraries, tests, lists, texts and results that all modules share
--   GoMap        Go's map as an association list in which no key stands twice; the order of a range loop,
--                which Go leaves open, is the order of that list
--   GoText       what the program uses of strings, strconv and fmt; a text is a list of code points
--   GoNet        net.ParseIP and To4
--   Util         internal/util/default_map.go
--   Domain       internal/domain: Hostname (hostnameRegexp by derivatives), Kind, Record, Intent, Event
--   State        internal/state: MemoryState, each method a step on the state
--   Core         internal/core: Labels (ParseLabels), Builder (GetContainerRecordIntents), NestedMaps,
--                Filter (FilterRecordIntents), Validation (ValidateRecord), Reconcile
--                (ReconcileAndValidate), Engine (handleEvent), and below it Pass (the function of a tick
--                over a registry, a record of calls that change a world), Sync (the tick over the etcd
--                registry and its lock), Run, and Counts (what a tick counts)
--   Registry     internal/registry: Path (keyBaseForFQDN, fqdnFromKey), Index (getNextIndexedKey), the
--                wire records; Client (the calls of List, Register, GetLiveHostnames, and in Remove
--                those of Remove), Lock (LockTransaction), Heartbeat (StartHeartbeat to Close)
--   Event        internal/event: docker_wire.go, Backoff (nextBackoff, stableConnection), Generator
--                (the options, runOnce, jitter) and below it Rounds (Subscribe)
--   HttpServer   internal/httpserver: status.go, and Routes (the handlers of server.go)
--   Metrics      internal/metrics/metrics.go
--   Config       internal/config/config.go: the structs, Validate, Tls (ClientTLS), Load
--   App          internal/app/app.go, and runWithDeps of cmd/docker-coredns-sync/root.go
--   Examples     runs at small inputs
--
-- A definition has the name of its Go function in snake case. The index of an empty slice, at which Go
-- would panic, gives none, and so does a cycle walk that runs out of fuel. A time is the number of nanoseconds since an instant before every time that
-- the program meets; time.Now() is an argument, or read from the world. A method that calls a client is a
-- function of a world, whose type is a parameter: the client is a record of functions on it, and the
-- theorems name what they take from the documentation of etcd as laws of that record. A
-- read with WithSerializable may be stale in etcd; a theorem that needs it current says so, and has that
-- as a law of its own. What a select
-- between a channel and the context does is an argument: the items that a stream delivers, the number of
-- sends before the context is cancelled, the sections of the heartbeat between two ticks.
--
-- Fuel and bounds. The cycle walk of ValidateRecord has as much fuel as the map has names and one more,
-- since a walk that goes on comes back to a name, and the loop of getNextIndexedKey one round more than
-- there are indices in use, since each round passes one of them; both are proved to be enough. The batches of Remove have as much fuel
-- as there are keys. The retry loop of a lock, and the loops of the heartbeat, have the fuel that they
-- are given; a retry loop whose pauses are of at least one nanosecond needs a round for each nanosecond
-- of the timeout at most. A finite float64 of the configuration is a whole number of units of 2^-1074,
-- and its product with time.Second is a parameter.
--
-- Not modelled: logging, the command line and viper, the serving and shutdown of net/http, the values
-- that the Prometheus library keeps, the number of skipped records and the call of ObserveReconcile in
-- a tick, and the ticker of the engine. The JSON coder, the Docker and etcd clients, crypto/tls and random
-- numbers are parameters.
mod Prelude
pub mod GoMap
pub mod GoText
pub mod GoNet
pub mod Domain
pub mod State
pub mod Util
pub mod Config
pub mod Core
pub mod Registry
pub mod Event
pub mod HttpServer
pub mod Metrics
pub mod App
pub mod Examples
