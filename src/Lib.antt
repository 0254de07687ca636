-- ===== src/Lib.antt =====
-- The Go control plane of HermiNas, as far as it decides things itself.
--
-- The program ingests records into ClickHouse tables and answers queries on them. Its control
-- plane keeps a registry of dataset definitions in SQLite, runs queries under quotas with a cache
-- and an audit log, supervises processes, passes events between its parts on a bus, and
-- limits requests per address. Behind the limit a router lets requests through by session or by token,
-- and by role or scope. A hub of WebSocket connections runs the queries of dashboards again and again
-- and pushes their rows.
--
-- Parts, and the files that model them:
-- - engine/bus/bus.go: Bus (`Subscribe`, its `Unsubscribe`, `Publish`, `Dropped`,
--   `SubscriberCount`). The channels are a store that ids point into; a step that would panic, a
--   send on a closed channel or a second close, is `none`. Bus/Invariant, Bus/Invariant/Release,
--   Bus/Delivery and Bus/Traces hold the proofs. Any interleaving of the goroutines is a list of
--   calls, since `bus.mu` makes each call one step.
-- - engine/querybroker: QueryBroker/Quota (quota.go), QueryBroker/Cache (cache.go),
--   QueryBroker/Audit (audit.go), QueryBroker/Broker (broker.go, `Execute` and what it calls) and
--   QueryBroker/Broker/Streams (`Stream`). Proofs on whole queries are in QueryBroker/Broker/Laws
--   and QueryBroker/Broker/Streams/Rows. ClickHouse and the network are the parameter `Http`. The
--   times that `time.Now()` reads are arguments.
-- - Lines: what the broker uses of `strings` and of `bufio.Scanner`, on bytes, with `splitLines`
--   of broker.go.
-- - engine/schemamgr: SchemaMgr/Dataset (dataset.go), SchemaMgr/Ddl (ddl.go), SchemaMgr/Infer
--   (infer.go, with SchemaMgr/Infer/Sample, SchemaMgr/Infer/Order and SchemaMgr/Infer/Typed) and
--   SchemaMgr/Store (store.go). SQLite and encoding/json are the interface
--   SchemaMgr/Database, with their documented behaviour as laws: a successful write is read back, a
--   version of a name is inserted once, an encoded definition decodes to itself. A database in
--   memory fulfils the laws (SchemaMgr/Tests/Memory).
--   The handlers of http.go are SchemaMgr/Http, with SchemaMgr/Http/Answers; the executor of DDL is
--   a parameter, and decoded bodies are arguments.
-- - engine/supervisor/supervisor.go: Supervisor (`Backoff.next`, and one process with its `watch` and
--   `Stop` as a machine whose events interleave in any order) with Supervisor/Watch, and
--   Supervisor/Lifecycle (`Register`, `Start`, `awaitHealthy`, `Stop`) with
--   Supervisor/Lifecycle/Order. What starting, stopping and probing do to the world is a parameter.
-- - engine/api/ratelimit.go: Api/RateLimit. It keeps the same window of one minute as the quotas;
--   Window is the interface of both, and Window/Bound what follows from it.
-- - engine/auth: Auth/Store (store.go) with Auth/Store/Users, Auth/Store/Tokens,
--   Auth/Store/Verified, Auth/Store/Calls and Auth/Store/Revocation, Auth/Jwt (jwt.go), and
--   Auth/Middleware (middleware.go) with
--   Auth/Middleware/Guards. SQLite, bcrypt and SHA-256 are the interface Auth/Database, golang-jwt is
--   the interface of Auth/Jwt, each with its documented behaviour as laws, which a database in memory
--   and a small library fulfil (Auth/Tests/Memory). Salts, random tokens and times are arguments.
-- - engine/api: Api/ClickHouse (`Insert` of ingest.go, `Exec` of ddl_executor.go), Api/Ingest
--   (`ingestHandler` of routes.go) with Api/Ingest/Stored, Api/Ingest/Kept and
--   Api/Ingest/Accepted, Api/Routes (the other handlers of
--   routes.go, and the mux of engine/schemamgr/http.go) with Api/Routes/Login, and Api/Routes/Router
--   (`NewRouter`) with Api/Routes/Access, Api/Routes/Audited, Api/Routes/Limited, and Api/Routes/Kept on
--   whole histories of requests. Api/Server is server.go and static.go. The stores that the handlers
--   change are one record, Api/World. A request comes with the route that the mux finds for its path and with its body
--   decoded; encoding/json and the HTTP client are parameters.
-- - engine/wshub: WsHub/RateLimit (ratelimit.go), WsHub/Subscriptions (`subscribe`, `unsubscribe`
--   and `cancelAll` of subscription.go) with WsHub/Subscriptions/Live, WsHub/Polling (`run` and
--   `maxSinceColumn`) with WsHub/Polling/Newest, and WsHub/Hub (hub.go, client.go and handler.go) with
--   WsHub/Hub/Queues and WsHub/Hub/Departure; WsHub/Hub/Writer is
--   `writePump` with WsHub/Hub/Writer/Order; WsHub/Hub/Steps is the relation of the steps that the
--   goroutines of the hub can take in any order. The connection is what it reads and whether it was
--   closed; clients and pollers are numbers into stores; decoding and validating are parameters.
-- - engine/supervisor/exec_process.go: Supervisor/ExecProcess, with `Status` of supervisor.go. What
--   the operating system answers is an argument.
-- - bootstrap.go: Bootstrap (`arg`, the choice in `main`, `jwtSecretFromEnv`, `bootstrapAdminUser`,
--   `brokerQueryRunner` and the heartbeat of ClickHouse) with Bootstrap/Admin; Bootstrap/Run
--   (`runControlPlane`, `statusControlPlane`) puts the services under the supervisor,
--   Bootstrap/Serve (`serveAPI`) puts the stores, the router and the hub together, with the outer mux
--   and the server in Bootstrap/Serve/Handler, and
--   Bootstrap/Widget runs the poller of a widget on the broker and the hub. `Open` of the two stores
--   is `open_store` of Bootstrap/Serve.
-- - engine/clickhouse and engine/redpanda: Services/ClickHouse (clickhouse.go), with
--   Services/ClickHouse/Configured, Services/ClickHouse/Downloaded and Services/ClickHouse/Healthy, and
--   Services/Redpanda (redpanda.go). The files, the network and `filepath.Join` are the interface
--   Services.Host with their documented behaviour as laws, which a host in memory fulfils
--   (Services/Tests/Memory).
-- - kernel/errors/errors.go and kernel/permissions/permissions.go: Kernel/Errors and
--   Kernel/Permissions; kernel/settings and kernel/paths: Kernel/Settings; kernel/schemas/websocket.go:
--   Kernel/Schemas and Kernel/Schemas/Loading; WsHub/Hub/Valid puts the check in front of the hub.
-- Prelude and its children hold what all parts share: tests on numbers, lists, maps, integers.
--
-- Strings are texts of Unicode: a path whose escapes are not UTF-8 when they are undone is outside
-- the model. Times are natural numbers of nanoseconds, counts of dropped events wrap around at
-- 2^64. Loops are structural recursion, on lists; only the digits of a number run on fuel, the
-- number itself, which is more than its digits.
--
-- Not modelled: the read deadline of WebSocket connections; the timers, the signals
-- and what is printed in bootstrap.go; the getters of the settings; closing databases;
-- the text of error messages, which are kept as format and arguments; the white space of Unicode in
-- `strings.TrimSpace`; closing files and connections; the generated protocol code; and the parts of
-- the repository in Rust, Python and TypeScript.
pub mod Prelude
pub mod Bus
pub mod Window
pub mod Kernel
pub mod Lines
pub mod QueryBroker
pub mod SchemaMgr
pub mod Api
pub mod Services
pub mod Supervisor
pub mod Auth
pub mod WsHub
pub mod Bootstrap
