-- ===== src/Lib.antt =====
-- Movy copies databases: a web console queues a migration run, a runner claims it and executes it in a
-- child process, and the run's events travel back through a metadata database to the browsers watching.
--
-- Parts and files. Paths are from the repository's root.
--
-- The queue: the run queue in Postgres. apps/runner/src/agent/queue-store.ts (`claimNextRun`,
--   `takeRunSpec`, `heartbeat`, `settleClaimedRun`, `cancelQueuedRun`, `reattachableRuns`, `sweep`,
--   `registerRunner`, `setRunnerState`), `enqueue` and `requestCancel` of
--   apps/web/server/repositories/runs.repo.ts, and `markRunLaunched` and `finaliseRunIfUnsettled`
--   of apps/runner/src/agent/ingestion.ts. Queue/Tables has the columns of
--   packages/db/src/schema, Queue/Statements, Queue/Sweep and Queue/Repository one function per
--   statement, from the tables to the tables and the rows returned. Queue/Steps makes a step relation
--   of them, Queue/Rows says what their tests mean of a row. Two claims that race are told apart by what
--   a claim reads: its `View` holds the tables it writes to, the older snapshot its NOT EXISTS reads,
--   and the rows that others have locked. Both are arbitrary in the theorems.
-- The client: the browser's view of a run, apps/web/app/utils/run-reducer.ts. Client/State has its types
--   and those of apps/web/shared/run-wire.ts, Client/Fold its functions: `applyEvents` is
--   `apply_events`, the loop's variables are the record `Fold` and the switch is `apply_payload`.
-- The event stream: Events/Types has packages/core/src/domain/types/events.types.ts, Events/Sinks the sinks
--   of packages/core/src/application/events: `createThrottledSink` is `throttle` and `flush`,
--   `createSeqSink` is `number`, and `composeSink` is `emitted`, for no secrets and a target that does
--   not throw. `clock n` is the n-th reading of the clock; it may run backwards.
-- The ingestion: Ingest/Project is `projectEvents` of apps/runner/src/agent/run-projection.ts, its patches'
--   optional fields `Slot`s, and Ingest/Store is `applyProjection` of apps/runner/src/agent/ingestion.ts
--   on the rows of one run.
-- The writer: Writer/State is the class `EventWriter` of apps/runner/src/agent/event-writer.ts. The promise
--   of a write in flight is an entry of `in_flight`, a `drain` that awaits it an entry of `waiters`, and
--   the promise's end the call `finish`; so any interleaving of pushes, timer, flushes and ends of writes
--   is a list of calls. The agent passes the child's events through the writer to the ingestion, and the
--   browser reads them back as the batches of Client.
-- Access: Access/Roles is apps/web/server/utils/rbac.ts and apps/web/server/orgs/membership-rules.ts.
-- The migration: packages/core/src. Migrate/Schema has the types of domain/types, Migrate/Planner is
--   `TableMigrationPlanner.plan`, Migrate/Progress `MigrateDataUseCase.execute`, Migrate/Carry
--   `carryAutoIncrement`, Migrate/Translate `SyncSchemaUseCase.translateDiff`, Migrate/Failure
--   `classifyConnectionError` and the thrown values, and Migrate/Orchestrator `MigrationOrchestrator`.
--   Code that awaits is an action (Migrate/Effects): from a session, which holds the world beyond the
--   code, the events emitted so far and the variables of `run`, to what it returned or threw and the
--   session after it. An adapter's `migrate` returns once its workers have ended; when it throws,
--   workers may run on (`WorkerPool` waits by `Promise.all`), and what they report then stands between
--   the events that the run emits afterwards, in batches of any size, the last after the run's end. The
--   engines' adapters, the clock and the abort signal are functions of the world (the record `Ports` of
--   Migrate/Ports); the three connections are ended together. What `registry.get` throws, before the
--   run's `try`, and what goes to the logger are left out. Migrate/Lifecycle is the state machine that a
--   run's events are held against, Migrate/Triples what holds after an action that returns or throws.
-- The hub: Hub/State is the class `RunHub` of apps/web/server/runs/run-hub.ts: `byRun` is `by_run`,
--   the rooms of each run, and `byPeer` is `by_peer`. `revalidate` is what follows its wait for the
--   roles, and takes the memberships that it had read before. The hub is fed with the batches that the
--   ingestion has stored and sends each browser the frames that Client applies.
-- Shared: Shared/Utils is `chunkArray` and `retryWithBackoff` of packages/core/src/shared/utils.ts.
--
-- Numbers are natural numbers; a timestamp in the tables is a number of milliseconds, a uuid is the
-- number of its bits. A JavaScript `Map` is an association list that keeps the place of a key that is
-- set again, and `sort` is a stable insertion sort. `claimNextRun` has the source's own bound of five
-- attempts, and `chunkArray` as many rounds as the list has elements, which is enough for chunks of one
-- element or more. The planner's loop has one round for each table, which is enough since each visits a
-- table that no round before it did. No other loop needs fuel: each is structural recursion on the list
-- that it goes through or on the attempts left.
--
-- Not modelled: drivers and sockets, notifications (they only wake their listeners, who read the tables),
-- floating-point arithmetic and `localeCompare` (parameters of the reducer and of the migration), the pages
-- and components of the web app, the database engines' SQL, and the command line.

mod Prelude
pub mod Queue
pub mod Client
pub mod Events
pub mod Ingest
pub mod Writer
pub mod Access
pub mod Shared
pub mod Migrate
pub mod Hub
