-- ===== src/Store/Retry.antt =====
-- internal/db/retry.sql.go: creating jobs with a retry budget, and putting failed ones back.
use executr.Prelude.{
  ℕ, ℤ, ◌+◌, ◌*◌, ◌^◌, Bool, true, false, ◌&&◌, Option, none, some, List, ltb, ltb_ℤ, if◌then◌else◌,
  keep, take, sort_by, lex_before,
}
use executr.Models.{
  UuidNumber, Instant, Priority, foreground, background, best_effort, Status, pending, failed,
}
use executr.Store.Row.{Job, Tables, Context, Result, ok, failure, guarded, has_id, update_jobs}
use executr.Store.Jobs.{CreateJobParams, insert_job}

-- `status` is the literal 'pending' in the one call of the server.
pub record CreateJobWithRetriesParams : Type 0 where
  pub job : CreateJobParams
  pub max_retries : ℤ

unfoldable pub create_job_with_retries :
    CreateJobWithRetriesParams → Context → Tables → Tables × Result Job
create_job_with_retries p c t = guarded c t (insert_job p.job p.max_retries c t)

abbrev pub is_failed : Status → Bool
is_failed failed = true
is_failed _ = false

-- `retry_after IS NULL OR retry_after < NOW()`
abbrev pub is_due : Instant → Option Instant → Bool
is_due now none = true
is_due now (some r) = ltb r now

abbrev pub is_retriable : Instant → Job → Bool
is_retriable now j =
    is_failed j.status && ltb_ℤ j.retry_count j.max_retries && is_due now j.retry_after

-- ORDER BY priority compares the texts: 'background' < 'best_effort' < 'foreground'.
abbrev pub text_rank : Priority → ℕ
text_rank background = 0
text_rank best_effort = 1
text_rank foreground = 2

abbrev pub retried_first : Job → Job → Bool
retried_first j k =
    lex_before (text_rank j.priority) j.created_at (text_rank k.priority) k.created_at

unfoldable pub get_retriable_jobs : Context → Tables → Result (List Job)
get_retriable_jobs c t =
    if c.up
    then ok (take 10 (sort_by retried_first (keep (is_retriable c.now) t.jobs)))
    else failure

-- The expressions on the right of SET read the old row: the delay is 1 minute * 2 ^ retry_count.
abbrev pub retried_job : Instant → Job → Job
retried_job now j = record j {
  retry_count = j.retry_count + 1;
  status = pending;
  retry_after = some (now + 60000000 * 2 ^ j.retry_count);
  error_message = none;
  stdout = none;
  stderr = none;
  exit_code = none;
  started_at = none;
  completed_at = none;
  executor_id = none;
  last_heartbeat = none;
}

unfoldable pub increment_job_retry : UuidNumber → Context → Tables → Tables × Result (Unit {0})
increment_job_retry i c t = guarded c t (
    update_jobs (λ j. has_id i j && (is_failed j.status && ltb_ℤ j.retry_count j.max_retries))
      (retried_job c.now) t)
