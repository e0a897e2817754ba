-- ===== src/Store/Statement.antt =====
-- The statements that the server issues, one constructor for each call in server.go, and the
-- runs of them: whatever requests and workers do at once, the database sees one sequence.
use executr.Prelude.{ℤ, String, List, [], ◌∷◌}
use executr.Models.{UuidNumber}
use executr.Store.Row.{Tables, Context}
use executr.Store.Jobs
use executr.Store.Jobs.{CreateJobParams, CompleteJobParams, FailJobParams}
use executr.Store.Retry
use executr.Store.Retry.{CreateJobWithRetriesParams}
use executr.Store.Attempts
use executr.Store.Attempts.{RecordJobAttemptParams}

pub data Statement : Type 0 where
  create_job : CreateJobParams → Statement
  create_job_with_retries : CreateJobWithRetriesParams → Statement
  claim_next_job : String → Statement
  record_job_attempt : RecordJobAttemptParams → Statement
  update_heartbeat : UuidNumber → String → Statement
  complete_job : CompleteJobParams → Statement
  fail_job : FailJobParams → Statement
  cancel_job : UuidNumber → Statement
  reset_stale_job : UuidNumber → Statement
  increment_job_retry : UuidNumber → Statement
  cleanup_old_jobs : ℤ → Statement

unfoldable pub exec : Statement → Context → Tables → Tables
exec (create_job p) c t = (Jobs.create_job p c t).0
exec (create_job_with_retries p) c t = (Retry.create_job_with_retries p c t).0
exec (claim_next_job e) c t = (Jobs.claim_next_job e c t).0
exec (record_job_attempt p) c t = (Attempts.record_job_attempt p c t).0
exec (update_heartbeat i e) c t = (Jobs.update_heartbeat i e c t).0
exec (complete_job p) c t = (Jobs.complete_job p c t).0
exec (fail_job p) c t = (Jobs.fail_job p c t).0
exec (cancel_job i) c t = (Jobs.cancel_job i c t).0
exec (reset_stale_job i) c t = (Jobs.reset_stale_job i c t).0
exec (increment_job_retry i) c t = (Retry.increment_job_retry i c t).0
exec (cleanup_old_jobs r) c t = (Jobs.cleanup_old_jobs r c t).0

unfoldable pub run : List (Statement × Context) → Tables → Tables
run [] t = t
run ((s, c) ∷ rest) t = run rest (exec s c t)
