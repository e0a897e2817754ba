-- ===== src/Lib.antt =====
-- executr: a server that keeps jobs in PostgreSQL, executors that claim jobs over HTTP, run their
-- binaries and report the results, and a client library that both executors and the command line
-- use. Background workers of the server put jobs back whose executor has fallen silent, put failed
-- jobs back that may be tried again, and delete old ones.
--
-- The files, from the code at the bottom to the theorems at the top:
--
-- - Prelude and its children: lists over the native numbers, rows of tables, sorting, texts, and
--   Go's integers.
-- - Models: internal/models/job.go.
-- - Store: the two tables and every statement of internal/db/jobs.sql.go, retry.sql.go,
--   job_attempts.sql.go and stats.sql.go. Row has the tables of internal/server/migrations; Jobs,
--   Retry, Attempts and Stats have one function for each query, called as its method in snake
--   case; Statement has the statements that internal/server/server.go issues, and runs of them.
-- - Lifecycle: what runs of the statements keep. Rows and Tables state the invariant, Reachable
--   proves it of every run; Arrows has the arrows of a job's life, Edges what a statement can do
--   to a job, History follows one job, Claim and Claiming are about claims, Draining about claims
--   that follow one another, Handing what they hand out, Updates about the other updates of one
--   row, Open about attempts.
-- - Server: internal/server/server.go. Http has methods, responses and bodies, Convert
--   dbJobToModel, Jobs, Execution and Bulk the handlers, Workers one round of each background
--   worker, Routing the choice of a handler of the jobs API, Routes that of every handler, Admin
--   the statistics with UpdateQueueMetrics of internal/metrics/metrics.go. Effects, Safety,
--   Answers, BulkLaws, Rounds, Retries, Retention, Dispatch, Listing, Backoff and Gauges are about
--   these. Startup is Run with connectDB, runMigrations and startWorkers, and the health check;
--   Ready is about it. BulkSafety and RoutesSafety are about every route. System is the server as
--   it runs, its requests and the ticks of its workers; Statements, Running and Refinement relate
--   it to the runs of Store.Statement.
-- - Utils: internal/utils. Http is the requests with retries of http.go, and Backoff what they
--   guarantee; Downloader is downloader.go and hash.go, Downloads is about its files and its
--   retries, Progress about its progress reader.
-- - Client: pkg/client. Calls has the requests and the readings of responses of client.go,
--   Contract what a call is to do on the job store, Remote the proof that one request does it;
--   Sending is a call with the retries of internal/utils/http.go, and Resending about it. Errors
--   is errors.go, and Recognition is about the errors that the HTTP client returns. Connection is
--   the constructors of client.go and its Health, and Reaching is about these. Mock is mock.go:
--   its state, and in Mock.Operations its operations; Mock.Same and Mock.Agreement say when its
--   jobs are the server's rows, and Mock.Doubles, Mock.Submission, Mock.Claim and Mock.Equivalent
--   that a call keeps it so.
-- - Metrics: internal/metrics/middleware.go: normalizeEndpoint (Endpoint), what its labels look like
--   (Labels), the wrapper of the response with the count of requests (Middleware), and what it
--   counts (Recording).
-- - Cli: cmd/executr/main.go. Submit is submitJob up to the submission, and Submissions what
--   reaches the server from it; Inspect is the commands submit, status and cancel through the
--   client, and Table and Roundtrip about them; Config is the configurations of the commands
--   server and executor, and Starting about the latter.
-- - Executor: internal/executor. Output, Truncation and Marker are about truncateOutput of
--   runner.go; Cache is cache.go, and EvictionLoop, Eviction, Newest, Binaries, Verified and
--   Oversized are about it; Fetching joins the cache to the downloader of internal/utils; Poll is
--   the poll loop of executor.go, and Polling and GivingUp are about it; Start is New, the cleanup
--   of directories and sendHeartbeats; Runner is JobRunner.Execute of runner.go with executeJob
--   and failJob of executor.go, and Reports is about it; Delivery follows a report from the
--   executor to the row of its job.
-- - Tests: the theorems at concrete data.
--
-- How code becomes a definition:
--
-- - The state of the server is its tables, two lists of rows. A statement takes its parameters, a
--   context and the tables, and gives the tables after it and a row, no row or an error. The
--   context is what PostgreSQL decides: the time, the fresh UUID, whether the database is reached,
--   and which rows other transactions have locked. A statement is one step; requests and workers
--   that run at once are sequences of statements in any order, and between two statements of a
--   worker any run of others may stand.
-- - A handler takes a decoded request and gives a response with the tables. A panic is `none`.
-- - A UUID is a number, an instant the microseconds since an epoch (nanoseconds in the executor
--   and in waits between requests). Columns that may be NULL are options. `int` is an integer
--   without bound; conversions to int32 and int64 wrap around.
-- - encoding/json, uuid.Parse, SHA-256, the network, the file system, the clock and the commands
--   that jobs run are arguments. Where a theorem needs something of one of them, the theorem says
--   so.
-- - A Go map is a list in any order; where the order matters to the code, as in the eviction, the
--   theorems hold for each.
-- - Every loop is a recursion on its list, or on the number of retries that are left, which is
--   where the loop of the source ends too, so no fuel can run out. The digits of a number are
--   counted off with fuel of the number plus one, and each round divides by ten.
--
-- Not modelled: instants beyond the range of PostgreSQL, which refuses a retry time of such a row;
-- a statement that takes effect although its answer is lost; texts with a NUL character, which
-- PostgreSQL refuses; the overflow of sums of file sizes; negative limits on retries and on the
-- cache; the rounding of float64 in Duration.Seconds; modes of files; log lines, and of the
-- Prometheus metrics all but the gauges of the queue and the count of requests; when the tickers
-- fire that start rounds and polls; the reading of flags and the texts that commands print; the
-- callers of the mock that change a job through a pointer that it has handed out.
pub mod Prelude
pub mod Models
pub mod Store
pub mod Lifecycle
pub mod Server
pub mod Executor
pub mod Utils
pub mod Client
pub mod Metrics
pub mod Cli
pub mod Tests
