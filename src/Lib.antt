-- ===== src/Lib.antt =====
-- runState: a durable runtime for tasks of fixed steps on PostgreSQL, written in Go. An HTTP API
-- creates tasks and records cancellations and approvals, workers claim tasks under leases and run
-- their steps, and schedulers wake tasks up and end those that are cancelled or late. They share no
-- memory: all that passes between them is the database, through the transactions of
-- internal/store/store.go. This library models the store, with the data and the input references of
-- internal/task, and the processes around it as its clients: the API's handlers, the worker with
-- the executor of its steps, the scheduler, and the fake tool, a service with a table of its own.
--
-- Which file models what:
--   Task/Model      internal/task/model.go: the rows of the three tables as records.
--   Task/Json       the JSON documents that a decoder returns; numbers stay texts (UseNumber).
--   Task/Resolve    internal/task/resolve.go: ResolveInput, ValidateInputReferences.
--   Store/Types     the errors, tokens, claims, attempts and outcomes of store.go.
--   Store/Rows      the rows of one task, and the queries and updates on them.
--   Store/Lock      lockTask, lockOwnedTask, validateOwnership, ownsActiveLease.
--   Store/Lease     ClaimTask on the selected task, recoverExpiredTask, RenewLease.
--   Store/Start     StartStep.
--   Store/Approval  WaitForApproval and DecideApproval.
--   Store/Finish    FinishStep, insertFinishEvents, nullableJSON.
--   Store/Control   TimeoutOwnedTask, CancelTask, CancelOwnedTask, CancellationRequested,
--                   finishControlledTask, wakeRetryTask, wakeScheduledTask.
--   Store/Commit    commitWithFactCheck and the facts it reads back.
--   Store/Database  the whole database, a transaction on one task, LoadTask, LoadEvents.
--   Store/Create    CreateTask.
--   Store/Scan      ClaimTask, ProcessDueControl and WakeDueRetry with their selecting queries.
--   Store/Constraints  what the tables require of the columns that are written once.
--   Store/Machine   any sequence of the operations above, and a process's call of one (Call).
--   Store/Answer    what the caller of a transaction sees of it.
--   FakeTool        the table of effects of internal/faketool/handler.go: record.
--   FakeTool/Handler  its routes, with the handlers invoke and effect.
--   Executor        internal/executor/executor.go: ValidateDefinition, Execute; Executor/Types the
--                   failures with Classify, Executor/Steps and Executor/Tool the implementations,
--                   Executor/Decode the decoding of their inputs.
--   Worker          internal/worker/worker.go: timeoutClaim, cancelClaim; Worker/Loop executeClaim,
--                   Worker/Monitor monitorControl, Worker/Slot runSlot, Worker/Process New and
--                   the configuration in cmd/worker/main.go.
--   Config          internal/config/config.go.
--   Ids             internal/id/id.go: New.
--   Migrations      internal/migrations/migrations.go: Run.
--   Processes       main of cmd/api, cmd/scheduler, cmd/fake-tool, cmd/migrate and cmd/worker, New
--                   of the store and the scheduler, and Run of the worker.
--   Api             internal/api/handler.go: the routes; Api/Validation validateDefinition.
--   Scheduler       internal/scheduler/scheduler.go: the loops of Run.
-- The other modules under Store hold the proofs: Invariant what is well formed, Transition the step
-- relation of one transaction, Extension what no transaction takes back, Progress what succeeds.
-- The modules under Worker, Executor, Api, Scheduler and FakeTool/Handler that are not named above
-- hold their proofs. Samples runs a task from its creation to a decision, and the processes.
--
-- How state and operations correspond to the code. Every statement of store.go names the id of
-- one task, so the database is a list of TaskRows, a task with its steps and events, and an
-- operation is a function on one TaskRows: it returns an error, which stands for the rollback, or
-- an answer and the new rows, which stand for the commit. Row locks make transactions on one task
-- exclude one another, so that an interleaving of processes is the sequence of their commits;
-- each operation of a sequence brings its own readings of the database's clock (Clock), whose
-- order no operation assumes (a theorem that needs one says so), and its own set of rows that
-- others hold (SKIP LOCKED). Ids are primary keys, which is why an update by id changes the first
-- row that has it. The CHECK and UNIQUE constraints of internal/migrations/sql/001_init.sql that
-- an insertion can violate, and the range of the columns of type integer, are the test
-- `insertable`, but for those of idempotency_key: it is made of the ids of the task and of the
-- step with a colon in between, so it is never empty, and it is unique where the ids have no
-- colon, as the drawn ones do not; the other column types stand in the data types, so that a
-- status or a decision is one of the listed ones. A time is a number of microseconds. Machine
-- integers are unbounded numbers here: attempts and indices are bounded by columns of type
-- integer, and no operation subtracts but `attempt - 1` in the retry delay, of an attempt that is
-- at least 1. The store needs no fuel: its recursion is on lists and documents.
--
-- A process meets, call by call, what the others commit before the call, the clock of the call,
-- and whether the call and its answer get through (Link); the worker also what becomes of its
-- contexts and of the execution of its step (Round). These are arguments, so that the theorems on
-- a loop hold for every interleaving, and the loop's effect is a sequence of operations (Reaches),
-- to which the theorems on Store/Machine apply. The monitor of a lease runs beside the loop over
-- the steps: each is among the others of the other. The loops of the worker and the scheduler run
-- on fuel. executeClaim goes on only after a step has succeeded, so that one round more than the
-- steps left is enough, and runSlot gives that much; the scheduler's inner loop processes each
-- task at most twice, when it wakes it and when it ends it. Its outer loop ends with the process
-- only, and a round of it makes at least one scan, so that the scans up to the end of the context
-- are enough.
--
-- Parameters, which stand for what the database does: the collation of ids in ORDER BY (no law is
-- assumed), the equality of jsonb (only reflexivity is assumed), the locked rows, the clock, the
-- drawn ids. A COMMIT is acknowledged, or took effect with its response lost, or did not; the fact
-- check then reads the rows that the transaction left.
--
-- Further parameters: Go's library (Library: the match of a key with a struct's field, numbers and
-- durations from text, marshalling, formatting), what a request's body decodes to, time.Parse and
-- strings.TrimSpace; the bytes of rand.Read, the answers of pgxpool and of net/http, the embedded
-- files and the effect of a script. Where a theorem says so, json.Marshal gives nonempty valid
-- documents and a response with a valid document is not empty; no other law is assumed. A call of
-- the store that fails for another reason than the store's own errors has not reached the database,
-- or has taken effect without an answer (Delivery).
--
-- Not modelled: the session's time-outs and logging; what PostgreSQL rejects of valid JSON (jsonb)
-- and of texts (NUL), so that a write that passes the constraints is taken; signals,
-- which end a context, and the shutdown of a server, which the result of ListenAndServe stands for;
-- the SQL script, but for the constraints above; the tests.
pub mod Base
pub mod Task
pub mod Store
pub mod FakeTool
pub mod Config
pub mod Ids
pub mod Migrations
pub mod Executor
pub mod Worker
pub mod Api
pub mod Processes
pub mod Scheduler
pub mod Samples
