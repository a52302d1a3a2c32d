-- ===== src/Lib.antt =====
-- The insight collector: a Go service that takes in activity, security, transaction and callback
-- events, queues them as jobs and writes them to InfluxDB, with commands for its operators. This
-- library models its authentication, the middlewares that rest on it, the error codes, the commands
-- that manage clients, the workers that share the jobs, the requests for pages of records, the way of
-- the four kinds of events to InfluxDB and back, the detection of user agents, the lookups in GeoIP
-- databases and the health checks.
--
-- How the parts interact. A start loads the active clients of the configuration into a registry
-- (InitAuth). A request meets MultiAuthMiddleware, which verifies a token (VerifyJWT) or a signature
-- (VerifySignature) against the registry, checks the required permission (HasPermission), and either
-- hands the request on with the client's identity or answers with a code, of which the error table
-- makes an HTTP status. A request for a page of records is validated and becomes a query with a time
-- range, a cursor and a limit; the page's metadata names the cursors of its neighbours, and a record
-- id names one record. The client commands run in processes of their own: each changes the registry
-- of its process, the configuration in memory and the file, and the service sees the file at its next
-- start. A job goes to the queue of the worker that handles its task type (GetQueueForTaskType); the
-- workers are kept in Redis and generated from the registered jobs when there are none.
--
-- Which file models which part.
--   Auth/Config         config/config.go: ClientConfig and the section `auth`.
--   Auth/Permissions    pkg/auth/permissions.go. Permissions/Grants relates it to what a permission
--                       covers.
--   Auth/Registry       pkg/auth/auth.go: the maps of keys, secrets and clients are one record, and
--                       AddClient, UpdateClient, RemoveClient, GetClientInfo, GetClientSecretKey and
--                       the loop of InitAuth are functions on it. Registry/Entries has the invariant,
--                       Registry/Lookup what lookups answer.
--   Auth/Nonces         the window test and the nonces of VerifySignature, and cleanExpiredNonces.
--   Auth/Service        InitAuth, ReloadAuth, StopAuth and cleanupWorker on the package's state.
--   Auth/Signature      pkg/auth/signature.go. VerifySignature is `verify_signature`: the checks
--                       before the nonce are `check_request`, those after it `check_signature`.
--   Http/Codes          internal/constants/errors.go.
--   Http/Middleware     http/middleware: JWTAuthMiddleware, SignatureAuthMiddleware and
--                       MultiAuthMiddleware, and VerifyJWT of pkg/auth/auth.go.
--   Cli/Clients         cmd/client.go: create, revoke, activate, regenerate and delete.
--   Cli/Workers         cmd/worker.go: set, add and reset.
--   Workers             pkg/asynq/worker_config.go, internal/constants/queues.go and
--                       internal/jobs/registry.go.
--   Workers/Dispatch    pkg/asynq/client.go: DispatchJob.
--   Query               pkg/influxdb/v2-oss/query_builder.go and types.go: ValidateRequest,
--                       buildTimeRange, buildCursorFilter, the limits of BuildQuery and
--                       ExecuteDataQuery, and GetPaginationInfo.
--   Query/Flux          BuildQuery, BuildCountQuery and ExecuteDataQuery of the same file, the page of
--                       ListCallbackLogs (http/v1/handler/callback_logs.go), and a client that walks
--                       along the cursors. Flux/Answers says what the database is taken to answer to
--                       the texts of the queries, Flux/Walk and Flux/Series what the client sees.
--   Query/Flux/Detail   GetTotalCount and GetByTimestampAndUniqueID, and the detail handlers.
--   Events              internal/entities: points and the values of records.
--   Events/Callbacks    http/v1/handler/callback_logs.go, internal/jobs/callback_logs and
--                       internal/entities/callback_logs: SaveCallbackLogs, HandleCallbackLogsLogging,
--                       ToPoint and MapToCallbackLogsResponse.
--   UserAgent           pkg/useragent/useragent.go: the tables (UserAgent/Defaults), the detector with
--                       its caches and Detect.
--   UserAgent/Log       logUnknownPattern and logUnknownDetections of the same file.
--   Events/Security, Events/Activities and Events/Transactions
--                       the other three kinds of events: their structs and requests, the payloads of
--                       http/v1/handler, the jobs of internal/jobs with their lookups (Events/Origins),
--                       and ToPoint and MapTo...Response of internal/entities (Points in each).
--                       Stored and Shown in each follow an event from the request to the response.
--   GeoIp               pkg/maxmind/types.go and reader.go: the lookups in the databases and the caches.
--   GeoIp/Reader        SafeGeoIPReader of reader.go with its operations. Reader/Caching, Loading and
--                       Interleaving say what lookups answer.
--   GeoIp/Config        getMaxMindConfig and validateConfig of pkg/maxmind/maxmind.go.
--   Health              internal/services/health/health.go: CheckHealth, CheckReadiness and the checks
--                       of the services.
--   Records             pkg/utils/utils.go: CreateRecordID and ParseRecordID.
--   Text, Int64         the functions of Go's strings and strconv that these parts call, and 64-bit
--                       differences.
--   Prelude             shared helpers: tests, lists, results and maps of Go as functions.
--   Tests               examples at concrete inputs.
--
-- Choices. Integers of 64 bits are natural numbers below 2 ^ 64 in two's complement; their
-- differences wrap (Int64). The clock's readings are arguments, in seconds for the authentication
-- and in nanoseconds elsewhere. A mutex makes a function one step, and interleavings are lists of
-- steps. Percentages of workers are natural numbers: the command refuses others, and the generated
-- ones are. Every loop of the program is structural; only the walk of a client has fuel, a number
-- of pages, and one more than there are records is enough. The order in which Go ranges over a map
-- is an argument wherever the result depends on it.
--
-- Not modelled. RSA, HMAC, the hashes, JSON, base64, JWT, PEM, the file system and Redis belong to
-- libraries or the system: they are parameters (KeyLoader, Crypto, Jwt, UrlEncoding, Layouts for
-- Go's layouts of times, ObjectJson, Expressions for the regular expressions, Lru for the caches of
-- GeoIP, Floats for the conversions of floats, which are their bits) or outcomes that an argument
-- chooses (Write, a reachable Redis). The database is a function from a query's text to records.
-- The text of log lines and answers is left out. The InfluxDB and Redis clients, the binding and
-- validation of requests, the server of the jobs and the downloads of GeoIP databases are not
-- modelled: most of them call third parties or print.
pub mod Prelude
pub mod Text
pub mod Int64
pub mod Auth
pub mod Http
pub mod Cli
pub mod Workers
pub mod Records
pub mod Query
pub mod Events
pub mod UserAgent
pub mod GeoIp
pub mod Health
pub mod Tests
