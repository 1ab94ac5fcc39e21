-- ===== src/Lib.antt =====
-- GraphOps, the two Go services: the incident service (internal/incidentapi) and the gateway to the
-- operational tools (internal/opsgateway).
--
-- The incident service keeps incidents, their analysis, review and report, a log of events and a log
-- of agent runs. The orchestrator (Python) posts an analysis, events, agent runs and a report to the
-- service; a reviewer approves or rejects. The gateway answers queries
-- for evidence, carries out a rollback once per idempotency key, and verifies the recovery; the
-- orchestrator puts the gateway's receipt into the report that it saves with the incident service.
--
-- Base (verification/Base) is what the program uses of Go: decimal numbers of `fmt.Sprintf`
-- (Decimal), `strconv.Atoi` (Atoi), 64-bit counters and conversions (Int), maps (Map), slices that
-- may be nil (Slice), `sort.Slice` (Sort), `strings.TrimSpace` (Text), times and JSON values (Value),
-- `(value, error)` of a call with a state, with its do blocks (Action), and what SQL statements do
-- with rows (Rows).
--
-- Incident models internal/incidentapi.
--   Types, Requests     types.go, a record per struct.
--   Clone               `cloneIncidentContext`, `cloneAnyMap`, `cloneIncident` of store.go.
--   Repository          repository.go: the operations that a store offers to the server.
--   Store               `MemoryStore` of store.go: State (the record, `CreateIncident`,
--                       `GetIncident`), Listing (`ListIncidents`), Changes (`SaveAnalysis`,
--                       `SaveReport`, `ReviewIncident`), Journal (events and agent runs).
--   Commands            the calls that write, as data, and runs of them.
--   Server              the handlers of server.go over any repository: Replies, Reads, Writes.
--   Api                 the requests that write, served over the memory store.
--   Interleaving        the two steps of `CreateIncident`, and runs in which they interleave.
--   Mysql               `MySQLStore` of mysql_store.go: Database (the calls of `database/sql` and of
--                       `encoding/json`, which are parameters), Calls (`marshalJSON`, transactions,
--                       loops over rows), Reads and Writes (the methods). Tables, Listing and
--                       Server state what the store relies on of the tables of
--                       sql/migrations/001_init.sql and of the MySQL server, Answers what it relies on
--                       of one that answers; Rules, Effects, Bodies, Found, Atomic, Single, Outcomes,
--                       ReadBack, Created, RoundTrip, Reading, Queries, Allowed and Success hold the
--                       proofs.
--   Contents, Lifecycle, Calls, Numbering, Invariant, Runs, Waiting, Listings, Serving, Exchanges,
--   Outcomes, Pages     hold the proofs; Examples runs them on one incident.
--
-- Gateway models internal/opsgateway.
--   Types, Requests     types.go.
--   Redis               redis.go: the helpers, and the Redis client as a record of calls.
--   Telemetry           telemetry.go: the metrics as the list of their updates.
--   Scenarios           mockdata.go: the table `scenarioData`, with its two kinds of scenarios (Release,
--                       Downstream); Consistency and Keys hold the proofs.
--   Store               `Store` of store.go: State, Queries, Rollback, Verify.
--   Server              the handlers of server.go over any `GatewayStore` (gateway.go).
--   Serving             the requests that act, served over `Store`, and what they do.
--   Mysql               `MySQLStore` of mysql_store.go: Database, Queries, Store (`Rollback`,
--                       `Verify`); Server states what it relies on; Effects, Verifying and Runs hold
--                       the proofs.
--   Evidence, Independence, Receipts, Idempotency, Validity, Runs hold the proofs; Examples runs them.
--
-- Dsn models `normalizeMySQLDSN` of cmd/incident-api/main.go, which cmd/ops-gateway/main.go repeats.
--
-- State is passed explicitly. An operation takes the readings of the clock that it makes (`Clock`),
-- the state, and returns its result with the state that it leaves. A method of either store holds its
-- mutex throughout, so that concurrent clients are a sequence of calls; `CreateIncident` alone reads
-- the clock and its atomic counter before it locks. Store has it as one step, Interleaving as the
-- two that it is, with any other calls in between. A counter wraps around at 2^64
-- and an item's number is its conversion to `int64`, which is where the bounds 2^63 and 2^64 on the
-- length of a run come from. No definition of a handler or a store runs on fuel; the one that does,
-- the printing of a number, has the number itself as fuel, and each round divides it by ten.
--
-- The Redis server is a parameter: a record of `SetNX`, `Set` and `Del` over a state of its own, which
-- may answer anything. The operations take the table of scenarios as a parameter, a map from
-- playbooks to records; Scenarios is the table that the gateway has. A number of type `float64` is its
-- 64 bits, and the arithmetic on these numbers is a parameter.
-- The MySQL server is a parameter in the same way, and any call of it may fail. What its answers mean
-- is a record of hypotheses (`Behaves`): a statement that succeeds does to the tables what SQL says,
-- one that fails does all of it or nothing, a rollback goes back to where the transaction began, and a
-- query whose rows are all read has given those that it asks for, in its order. `Answers` adds, for
-- the one theorem about success, that statements whose values the columns take do not fail. The
-- equality of the collation, the layout of JSON columns and the precision of times are parameters
-- too. These hypotheses are about one client: what other clients write between two calls is not
-- modelled. The examples run on a small database that meets these hypotheses.
-- The order in which `range` visits a map is a parameter, a permutation where that matters. A
-- request's body is given as `decodeJSON` leaves it, a request or an error.
--
-- Not modelled: the demo's handlers and assets, the rest of the programs under cmd/, which read the
-- environment and listen, the histogram of call durations, the Python orchestrator, the schema under
-- sql/, dashboards and scripts.
pub mod Base
pub mod Dsn
pub mod Incident
pub mod Gateway
