-- ===== src/Store/Stats.antt =====
-- internal/db/stats.sql.go: counts of jobs, and the executors that are at work. The order in which
-- PostgreSQL gives the groups stands for nothing.
use executr.Prelude.{
  ℕ, ◌+◌, ltb, Bool, ◌&&◌, false, Option, none, some, List, [], ◌∷◌, String, str_eq, length, keep,
  map, sort_by, ◌==◌, if◌then◌else◌,
}
use executr.Models.{
  UuidNumber, Instant, Priority, foreground, background, best_effort, Status, pending, running,
  completed, failed, cancelled, status_text, priority_text,
}
use executr.Store.Row.{Job, JobAttempt, Tables, Context, Result, ok, failure}
use executr.Store.Jobs.{is_pending, is_running, held_by}

-- How many rows pass a test.
abbrev pub number : (Job → Bool) → List Job → ℕ
number p js = length (keep p js)

abbrev pub in_status : Status → Job → Bool
in_status s j = str_eq (status_text j.status) (status_text s)

abbrev pub waits_with : Priority → Job → Bool
waits_with p j = is_pending j.status && str_eq (priority_text j.priority) (priority_text p)

-- A group of no rows is no row of the answer.
abbrev pub add_group : {A : Type 0} → A → ℕ → List (A × ℕ) → List (A × ℕ)
add_group a n rest = if ltb 0 n then (a, n) ∷ rest else rest

abbrev pub groups : {A : Type 0} → (A → ℕ) → List A → List (A × ℕ)
groups count [] = []
groups count (a ∷ more) = add_group a (count a) (groups count more)

abbrev pub statuses : List Status
statuses = pending ∷ running ∷ completed ∷ failed ∷ cancelled ∷ []

abbrev pub priorities : List Priority
priorities = foreground ∷ background ∷ best_effort ∷ []

unfoldable pub count_jobs_by_status : Context → Tables → Result (List (Status × ℕ))
count_jobs_by_status c t =
    if c.up then ok (groups (λ s. number (in_status s) t.jobs) statuses) else failure

unfoldable pub count_pending_jobs_by_priority : Context → Tables → Result (List (Priority × ℕ))
count_pending_jobs_by_priority c t =
    if c.up then ok (groups (λ p. number (waits_with p) t.jobs) priorities) else failure

pub record ActiveExecutor : Type 0 where
  pub executor_id : Option String
  pub job_id : UuidNumber
  pub job_type : String
  pub last_heartbeat : Option Instant
  pub jobs_completed : ℕ

-- `last_heartbeat > NOW() - INTERVAL '30 seconds'`
abbrev pub is_active : Instant → Job → Bool
is_active now j =
    is_running j.status && elim j.last_heartbeat [ none ↦ false | some h ↦ ltb now (h + 30000000) ]

abbrev pub completed_by : Option String → Job → Bool
completed_by none j = false
completed_by (some e) j = held_by e j.executor_id && in_status completed j

abbrev pub executor_row : List Job → Job → ActiveExecutor
executor_row js j = record {
  executor_id = j.executor_id;
  job_id = j.id;
  job_type = j.job_type;
  last_heartbeat = j.last_heartbeat;
  jobs_completed = number (completed_by j.executor_id) js;
}

-- ORDER BY last_heartbeat DESC.
abbrev pub heartbeat_of : Option Instant → Instant
heartbeat_of none = 0
heartbeat_of (some h) = h

abbrev pub heard_later : Job → Job → Bool
heard_later j k = ltb (heartbeat_of k.last_heartbeat) (heartbeat_of j.last_heartbeat)

-- The rows have different identifiers, so DISTINCT removes none.
unfoldable pub get_active_executors : Context → Tables → Result (List ActiveExecutor)
get_active_executors c t =
    if c.up
    then ok (map (executor_row t.jobs) (sort_by heard_later (keep (is_active c.now) t.jobs)))
    else failure

-- GetJobRetryCount.
unfoldable pub get_job_retry_count : UuidNumber → Context → Tables → Result ℕ
get_job_retry_count i c t =
    if c.up then ok (length (keep (λ (a : JobAttempt). a.job_id == i) t.attempts)) else failure
