-- ===== src/Lib.antt =====
-- A model of the gateway of corrupt-cv (services/gateway), the service that takes a visitor's
-- request for a CV, hands it to the workers over a NATS stream, and shows what becomes of it.
--
-- How the parts interact. A visitor is known by a signed cookie. A form post creates a row in the
-- table `jobs`, puts the visitor's API key into Valkey and publishes an event `requested`. The
-- workers, other programs, publish `structured`, `rendered` and `failed`. The runner consumes
-- all events and projects them into the row; a page of the visitor follows the same events over
-- a stream of server-sent events. A sweeper fails jobs that stay too long. The catalog says which
-- models there are. All this is set up, in its order, when the gateway boots, and taken down when it
-- is told to stop.
--
-- Which file models which part, by paths from services/gateway/:
--   Store     internal/store/store.go. Store/Rows has the tables, Store/Query one function per
--             method (UpsertProfile is upsert_profile, MarkFailed mark_failed), Store/Write the
--             writes as values and sequences of them. A method takes a Link, which says whether
--             its query is answered, never run, or run with its answer lost; the database's
--             clock; and the ids that the tables' defaults generate.
--   Jobs      internal/jobs/jobs.go. Jobs/Runner has handleMsg (handle_msg), handleAdvisory
--             (handle_advisory) and one tick of sweep (sweep_tick), on a record of the tables and
--             the counters. Jobs/Fact is the projection without tables. Jobs/Lifecycle has Start,
--             Stop and recordBacklog, Jobs/Instruments what NewRunner makes.
--   Events    the messages of gen/cvgen/events/v1/events.pb.go.
--   Jetstream internal/jetstream/jetstream.go: Subject, MsgID, ParseSubject, PublishJobRequested;
--             Jetstream/Provision has Provision and the ordered consumers.
--   Web       internal/web: Web/Status and Web/Sse are sse.go, Web/JobCreate is handleJobCreate
--             of handlers.go, Web/JobAccess the handlers behind visitorJob, Web/ProfileForm the
--             index page and the saving of a profile, Web/Limits limits.go, Web/Response the
--             redirects, Web/Router the routes and the middleware of web.go and headers.go.
--             Web/ApiKeys is internal/apikeys/apikeys.go, Web/Metrics newWebMetrics. Web/Sse/Json
--             and Web/Sse/Wire are the text of a stream and a client that reads it, and
--             Web/Sse/Connection what a stream opens and closes. Web/JobCreate/Phases is
--             handleJobCreate cut at its calls.
--   Session   internal/session/session.go: Sign, Verify, Middleware.
--   Catalog   internal/catalog/catalog.go: Load, Get and Search, and Seed over an interface of
--             the bucket.
--   Ops       internal/ops/ops.go, the readiness probe, with HeadBucket of internal/s3/s3.go.
--   S3        the rest of internal/s3/s3.go: New, Put, Get.
--   Telemetry internal/telemetry: Carrier is nats.go, Setup telemetry.go, Fanout fanout.go, and
--             Instruments metrics.go.
--   Config    internal/config/config.go: the settings, Load and InsecureSecretWarning.
--   Boot      cmd/gateway/main.go: run as the sequence of what it does, for every outcome of its
--             calls, with newLogger and newServers.
--   System    requests, submissions in flight and the runner as one step relation, on the same
--             tables and the same stream.
--   Pipeline  a submission, the runner and a download together.
--   Strings   what these use of Go's packages strings and unicode.
--   Common    the shared names, lists, texts and tests; Examples runs the theorems on data.
--
-- What a Go value is here. A string is the list of its runes, and its texts are valid UTF-8; a
-- byte string is a list of numbers. A timestamp is a number of microseconds, and a Go integer that
-- the code subtracts is a ℤ. An error of a call is a constructor, not its text. Loops are
-- structural recursion on the list that they consume, so there is no fuel but the advances of
-- a submission that is cut at its calls, which are five at most. A `select` is a list
-- of signals in the order in which it takes them, so every interleaving is some list. The three
-- connections of the boot are made in any order. A deadline of a context is a call that fails.
--
-- Parameters, since their code is not of the repository: the wire format of protobuf and protojson
-- (Codec), how Postgres reads a text as a uuid or as jsonb (fields of Codec), HMAC-SHA256 and
-- `uuid.Parse` (Crypto, with what the code relies on: tags are bytes), the case mappings of package unicode, the
-- YAML and environment parsers, the propagator's pairs, the answers of the NATS server, of the SDKs of
-- AWS and OpenTelemetry and of the handlers of slog, and which subjects a filter of NATS selects.
--
-- Between two calls of one submission anything may run in System; every other request is one step
-- there, and so is each input of the runner, which makes one write at most.
--
-- Not modelled: the templates and the static files, spans, the generated accessors of the messages,
-- and the workers, which are Python programs.
pub mod Boot
pub mod Catalog
pub mod Common
pub mod Config
pub mod Events
pub mod Examples
pub mod Jetstream
pub mod Jobs
pub mod Ops
pub mod Pipeline
pub mod S3
pub mod Session
pub mod Store
pub mod Strings
pub mod System
pub mod Telemetry
pub mod Web
