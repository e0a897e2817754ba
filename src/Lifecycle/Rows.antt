-- ===== src/Lifecycle/Rows.antt =====
-- One row of the table of jobs: which columns are set in which status, and that each statement's
-- SET and INSERT keep it so.
use executr.Prelude.{
  ℤ, pos_part, ◌≤◌, ◌<◌, ◌≡◌, ◌⊎◌, true, none, some, is_some, arith, ltb_ℤ, String,
}
use executr.Models.{Instant, Priority, Status, pending, running, completed, failed, cancelled}
use executr.Store.Row.{Job, Context}
use executr.Store.Jobs.{
  CreateJobParams, new_job, claimed_job, CompleteJobParams, completed_job, FailJobParams,
  failed_job, is_pending, is_running,
}
use executr.Store.Retry.{retried_job, is_failed}

-- No result has been reported.
abbrev pub NoResult : Job → Type 0
NoResult j = (j.stdout ≡ none) × (j.stderr ≡ none) × (j.exit_code ≡ none) × (j.error_message ≡ none)

-- Who runs the job since when, and whether it has ended.
abbrev pub Shape : Status → Job → Type 0
Shape pending j =
    (j.executor_id ≡ none)
    × (j.started_at ≡ none)
    × (j.last_heartbeat ≡ none)
    × (j.completed_at ≡ none)
    × NoResult j
Shape running j =
    (is_some j.executor_id ≡ true)
    × (is_some j.started_at ≡ true)
    × (is_some j.last_heartbeat ≡ true)
    × (j.completed_at ≡ none)
    × NoResult j
Shape completed j =
    (is_some j.executor_id ≡ true)
    × (is_some j.started_at ≡ true)
    × (is_some j.completed_at ≡ true)
    × (j.error_message ≡ none)
Shape failed j =
    (is_some j.executor_id ≡ true) × (is_some j.started_at ≡ true) × (is_some j.completed_at ≡ true)
Shape cancelled j =
    (j.executor_id ≡ none) × (j.started_at ≡ none) × (is_some j.completed_at ≡ true) × NoResult j

pub record IsValidJob (j : Job) : Type 0 where
  pub shape : Shape j.status j
  pub budget : j.retry_count ≤ pos_part j.max_retries
  pub first_run : (j.retry_after ≡ none) ⊎ (0 < j.retry_count)

pub new_job-IsValidJob :
    (p : CreateJobParams) (q : Priority) (m : ℤ) (c : Context) → IsValidJob (new_job p q m c)
new_job-IsValidJob p q m c = ground arith

pub claimed_job-IsValidJob :
    (e : String) (now : Instant) (j : Job)
    → is_pending j.status ≡ true
    → IsValidJob j
    → IsValidJob (claimed_job e now j)
claimed_job-IsValidJob e now j h v = ground arith

pub heartbeat-IsValidJob :
    (now : Instant) (j : Job)
    → is_running j.status ≡ true
    → IsValidJob j
    → IsValidJob (record j { last_heartbeat = some now })
heartbeat-IsValidJob now j h v = ground arith

pub completed_job-IsValidJob :
    (p : CompleteJobParams) (now : Instant) (j : Job)
    → is_running j.status ≡ true
    → IsValidJob j
    → IsValidJob (completed_job p now j)
completed_job-IsValidJob p now j h v = ground arith

pub failed_job-IsValidJob :
    (p : FailJobParams) (now : Instant) (j : Job)
    → is_running j.status ≡ true
    → IsValidJob j
    → IsValidJob (failed_job p now j)
failed_job-IsValidJob p now j h v = ground arith

pub cancelled-IsValidJob :
    (now : Instant) (j : Job)
    → is_pending j.status ≡ true
    → IsValidJob j
    → IsValidJob (record j { status = cancelled; completed_at = some now })
cancelled-IsValidJob now j h v = ground arith

pub reset-IsValidJob :
    (j : Job)
    → is_running j.status ≡ true
    → IsValidJob j
    → IsValidJob (record j {
      status = pending;
      executor_id = none;
      started_at = none;
      last_heartbeat = none;
    })
reset-IsValidJob j h v = ground arith

pub retried_job-IsValidJob :
    (now : Instant) (j : Job)
    → is_failed j.status ≡ true
    → ltb_ℤ j.retry_count j.max_retries ≡ true
    → IsValidJob j
    → IsValidJob (retried_job now j)
retried_job-IsValidJob now j h b v = ground arith
