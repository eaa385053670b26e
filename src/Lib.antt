-- ===== src/Lib.antt =====
-- Verification of the competition API: the evaluation of submissions by a worker, and the parts of
-- the server that decide who may do what and what is stored.
--
-- A worker is given URLs of a repository, of its fuzz tooling, of a trigger (a PoV) and of a patch.
-- `Evaluator` fetches them and calls an `Engine`: `BuildRetryEngine`, which retries builds, around
-- `AixccEngine`, which runs scripts and git. What was found is sent as a final message through a
-- queue to the server, which sets the submission's status. On the server, requests pass the
-- authentication, a rate limiter and the permissions before a handler reads and writes the database.
--
-- Files, with the sources from the root of the repository (`…` is competition-api):
-- Prelude (and Prelude/*): Boolean tests, lists, results, and `Exec`, a Go function that acts on a
--   world outside and returns an error.
-- Types/*: …/internal/types (statuses, messages of workers, optional fields, bundles).
-- WorkerErrors: …/internal/worker_errors, and Go's chains of errors.
-- Upload, WorkerQueue: …/internal/upload/uploader.go with …/internal/hash/hash.go, and
--   …/cmd/worker/internal/workerqueue.
-- Retry, GoStrings: what the code relies on in the library go-retry with
--   what it makes of a call (Retry/Tried), and functions of Go's `strings`.
-- Engine, Engine/BuildRetry: engine.go, params.go, build_retry.go of …/cmd/worker/internal/engine.
-- Aixcc, Aixcc/Files, Aixcc/Commands, Aixcc/Patches: aixcc.go of the same directory, with
--   …/internal/identifier and challenge_yaml.go of …/internal/types. Aixcc/Languages: the flag for languages.
-- Evaluate: …/cmd/worker/internal/evaluate/evaluator.go. Evaluate/Plan writes the calls of the
--   engine down and says which are due.
-- Validator, Archive, Audit: …/internal/validator/b64.go, …/internal/archive/archive.go, and the lines
--   of …/internal/audit.
-- Models/*: rows of …/cmd/server/internal/models; Models/Keys loads the keys of
--   auth.go. Http: …/cmd/server/internal/response.
-- Routes/Bundle: …/cmd/server/internal/routes/v1/bundle.go; its writes are recorded in
--   Routes/Bundle/Recorded. Writes, Traces: rules for what a handler writes and in which order.
-- Routes/Context: what handlers share. Routes/Submission/Pov, Patch, Reports: pov.go, patch.go,
--   submitted_sarif.go, freeform.go and broadcast_sarif.go of the same directory.
--   Routes/Submission/Traced writes down what they insert, print and start.
-- Routes/Jobrunner, Routes/Jobrunner/Work: jobrunner.go, job.go and results.go of
--   …/cmd/server/internal/routes/jobrunner.
-- Routes/Requests: request.go of …/cmd/server/internal/routes/v1. Routes/Competition: cancel.go and
--   budget.go of …/cmd/server/internal/routes/competition.
-- Jobs: …/cmd/server/internal/jobs/jobs_client.go, with the data of its templates. Deliver: …/cmd/worker/
--   internal/behavior/deliver.go. Upload/Retrying: …/internal/upload/retry.go.
-- Queue: azure.go and queuer.go of …/internal/queue.
-- RateLimit: …/cmd/server/internal/ratelimit/redis.go.
-- Middleware: auth.go, authorization.go, param.go and round.go of …/cmd/server/internal/middleware,
--   and the group of routes/v1/v1.go that a handler of submissions stands in.
-- Results: `HandleFinalMessage` of …/cmd/server/internal/jobs/queue_monitor.go and `handleJobUpdate`
--   of controller.go. Results/Messages: the rest of queue_monitor.go, with the loop over the queue.
--   Results/Views: what is seen of one submission; Results/Rows: the table of all statuses.
-- Tests/*: the theorems at concrete inputs.
--
-- State: code that acts on the world is a function from a world `W` to a result and a world, for any
-- `W`; what it calls outside the repository is a record of operations on `W` that the definitions
-- take as an argument: `System`, `Host`, `BundleServer`, `Handler`, `ArchiveSystem`, `AuthServer`,
-- `KeyStore`, `JobHandler`, `RequestHandler`,
-- `CompetitionHandler`, `ResultServer`, `MessageServer`, `QueueClient`, `Cluster`, `HttpClient`, `Redis`,
-- `Retry`, `Backoff`. `defer` is `deferring`. `Evaluate` waits for the evaluation or the end of the context;
-- which came first is an argument, `Arrival`. The two steps of `Allow` are apart, so that requests can
-- be interleaved.
--
-- Bounds: the loops are structural recursion; the three runs of a trigger and the three retries of a
-- build are the source's own numbers. Two loops of the source have no end: the wait for a message and
-- the monitoring of a queue. They take the number of their rounds as an argument, and end as
-- `still_waiting` and `running` where it is too small; a message that arrives is received with more
-- rounds than it needs. A panic is an answer of a handler,
-- `panicked`, and in the job runner an error, `nil_pointer`.
--
-- Not modelled: traces and logs, and the closing of files opened for a copy; numbers printed into
-- error texts; the time that the hashes made for unknown keys take. Postgres with gorm, Redis, the
-- cluster, the cloud stores and queues, go-enry, gitdiff, argon2id, uuid, yaml and the validator are
-- parameters. A status of a row and a job type are enumerations where the source has texts, but the
-- status of a final message is any text, `StatusText`.
pub mod Prelude
pub mod Types
pub mod WorkerErrors
pub mod Upload
pub mod WorkerQueue
pub mod Retry
pub mod Engine
pub mod GoStrings
pub mod Aixcc
pub mod Evaluate
pub mod Models
pub mod Http
pub mod Writes
pub mod Traces
pub mod Routes
pub mod Jobs
pub mod Deliver
pub mod Queue
pub mod RateLimit
pub mod Results
pub mod Middleware
pub mod Tests
pub mod Audit
pub mod Validator
pub mod Archive
