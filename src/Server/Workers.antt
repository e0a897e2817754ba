-- ===== src/Server/Workers.antt =====
-- The background workers of internal/server/server.go: one round of each. The statements of a
-- round are separate transactions, so between any two of them others may run.
use executr.Prelude.{ℕ, suc, ◌*◌, ◌-◌, ℤ, pos, negsuc, List, [], ◌∷◌, to_int64}
use executr.Models.{UuidNumber}
use executr.Store.Row.{Job, Tables, Context, Result, ok, no_rows, failure}
use executr.Store.Jobs.{find_stale_jobs, reset_stale_job, cleanup_old_jobs}
use executr.Store.Retry.{get_retriable_jobs, increment_job_retry}
use executr.Store.Statement.{Statement, run}

-- What others do before the n-th statement of a round.
abbrev pub Others : Type 0
Others = ℕ → List (Statement × Context)

-- `for _, job := range jobs`, with one statement on each id, whose error is only logged.
unfoldable pub for_each :
    (UuidNumber → Context → Tables → Tables × Result (Unit {0}))
    → (ℕ → Context)
    → Others
    → ℕ
    → List Job
    → Tables
    → Tables
for_each statement cs others n [] t = t
for_each statement cs others n (j ∷ js) t =
    for_each statement cs others (suc n) js (statement j.id (cs n) (run (others n) t)).0

abbrev pub over_rows :
    (UuidNumber → Context → Tables → Tables × Result (Unit {0}))
    → (ℕ → Context)
    → Others
    → Result (List Job)
    → Tables
    → Tables
over_rows statement cs others (ok js) t = for_each statement cs others 0 js t
over_rows statement cs others no_rows t = t
over_rows statement cs others failure t = t

-- `c` is the context of the query, `cs` those of the statements that follow.
unfoldable pub check_stale_jobs : Context → (ℕ → Context) → Others → Tables → Tables
check_stale_jobs c cs others t = over_rows reset_stale_job cs others (find_stale_jobs c t) t

-- `int64(s.config.JobRetention) * 3600000000`, the configuration being in seconds.
unfoldable pub retention_interval : ℤ → ℤ
retention_interval (pos n) = to_int64 (pos (n * 3600000000))
retention_interval (negsuc n) = to_int64 (negsuc (suc n * 3600000000 - 1))

unfoldable pub cleanup : ℤ → Context → Tables → Tables
cleanup job_retention c t = (cleanup_old_jobs (retention_interval job_retention) c t).0

unfoldable pub retry_failed_jobs : Context → (ℕ → Context) → Others → Tables → Tables
retry_failed_jobs c cs others t = over_rows increment_job_retry cs others (get_retriable_jobs c t) t
