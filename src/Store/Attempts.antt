-- ===== src/Store/Attempts.antt =====
-- internal/db/job_attempts.sql.go: the history of executions.
use executr.Prelude.{
  ℕ, String, Bool, not, ◌&&◌, Option, none, some, List, [], ◌∷◌, ◌==◌, ltb, str_eq, if◌then◌else◌,
  is_some, keep, any, update, length, sort_by,
}
use executr.Models.{UuidNumber}
use executr.Store.Row.{
  AttemptStatus, JobAttempt, Tables, Context, Result, ok, no_rows, failure, guarded, has_id,
}

abbrev pub of_job : UuidNumber → JobAttempt → Bool
of_job i a = a.job_id == i

pub record RecordJobAttemptParams : Type 0 where
  pub job_id : UuidNumber
  pub executor_id : String
  pub executor_ip : String

abbrev pub new_attempt : RecordJobAttemptParams → Context → JobAttempt
new_attempt p c = record {
  id = c.fresh;
  job_id = p.job_id;
  executor_id = p.executor_id;
  executor_ip = p.executor_ip;
  started_at = c.now;
  ended_at = none;
  status = AttemptStatus.running;
  error_message = none;
}

-- INSERT: refused on a taken primary key, and by the foreign key when the job is gone.
unfoldable pub record_job_attempt :
    RecordJobAttemptParams → Context → Tables → Tables × Result JobAttempt
record_job_attempt p c t = guarded c t (
    if any (λ (a : JobAttempt). a.id == c.fresh) t.attempts
    then (t, failure)
    else if any (has_id p.job_id) t.jobs
    then (record t { attempts = new_attempt p c ∷ t.attempts }, ok (new_attempt p c))
    else (t, failure))

pub record UpdateJobAttemptParams : Type 0 where
  pub job_id : UuidNumber
  pub status : AttemptStatus
  pub error_message : Option String
  pub executor_id : String

unfoldable pub update_job_attempt :
    UpdateJobAttemptParams → Context → Tables → Tables × Result (Unit {0})
update_job_attempt p c t = guarded c t (
  record t {
    attempts =
        update
          (λ a. of_job p.job_id a && str_eq a.executor_id p.executor_id && not (is_some a.ended_at))
          (λ a. record a {
            ended_at = some c.now;
            status = p.status;
            error_message = p.error_message;
          })
          t.attempts;
  },
  ok tt,
)

unfoldable pub count_job_attempts : UuidNumber → Context → Tables → Result ℕ
count_job_attempts i c t = if c.up then ok (length (keep (of_job i) t.attempts)) else failure

abbrev pub latest_first : JobAttempt → JobAttempt → Bool
latest_first a b = ltb b.started_at a.started_at

unfoldable pub get_job_attempts : UuidNumber → Context → Tables → Result (List JobAttempt)
get_job_attempts i c t =
    if c.up then ok (sort_by latest_first (keep (of_job i) t.attempts)) else failure

abbrev pub first_row : List JobAttempt → Result JobAttempt
first_row [] = no_rows
first_row (a ∷ rest) = ok a

unfoldable pub get_latest_job_attempt : UuidNumber → Context → Tables → Result JobAttempt
get_latest_job_attempt i c t =
    if c.up then first_row (sort_by latest_first (keep (of_job i) t.attempts)) else failure
