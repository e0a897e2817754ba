-- ===== src/Store/Jobs.antt =====
-- internal/db/jobs.sql.go: the statements on the table of jobs. Each is the query's text applied
-- to the tables, with the row that `Scan` reads.
use executr.Prelude.{
  ℕ, ℤ, pos, negsuc, String, ◌+◌, Bool, true, false, not, ◌&&◌, Option, none, some, List, [], ◌∷◌,
  ltb, earlier_by, str_eq, if◌then◌else◌, keep, any, find, take, drop, sort_by, lex_before,
}
use executr.Models.{
  UuidNumber, Instant, Priority, foreground, background, best_effort, Status, pending, running,
  completed, failed, cancelled, priority_text, status_text,
}
use executr.Store.Row.{
  Job, JobAttempt, Tables, Context, Result, ok, no_rows, failure, guarded, has_id, update_returning,
  update_jobs,
}

abbrev pub is_pending : Status → Bool
is_pending pending = true
is_pending _ = false

abbrev pub is_running : Status → Bool
is_running running = true
is_running _ = false

-- `status IN ('completed', 'failed', 'cancelled')`
abbrev pub is_terminal : Status → Bool
is_terminal completed = true
is_terminal failed = true
is_terminal cancelled = true
is_terminal _ = false

-- The CHECK constraint of `jobs.priority`.
abbrev pub check_priority : String → Option Priority
check_priority p =
    if str_eq p "foreground"
    then some foreground
    else if str_eq p "background"
    then some background
    else if str_eq p "best_effort"
    then some best_effort
    else none

pub record CreateJobParams : Type 0 where
  pub job_type : String
  pub binary_url : String
  pub binary_sha256 : String
  pub arguments : List String
  pub env_variables : String
  pub priority : String

-- A new row: the columns given, and the defaults of the others.
abbrev pub new_job : CreateJobParams → Priority → ℤ → Context → Job
new_job p priority max_retries c = record {
  id = c.fresh;
  job_type = p.job_type;
  binary_url = p.binary_url;
  binary_sha256 = p.binary_sha256;
  arguments = p.arguments;
  env_variables = p.env_variables;
  priority = priority;
  status = pending;
  executor_id = none;
  stdout = none;
  stderr = none;
  exit_code = none;
  error_message = none;
  created_at = c.now;
  started_at = none;
  completed_at = none;
  last_heartbeat = none;
  max_retries = max_retries;
  retry_count = 0;
  retry_after = none;
}

-- INSERT: refused on a priority outside the CHECK and on a taken primary key.
abbrev pub insert_with :
    Option Priority → CreateJobParams → ℤ → Context → Tables → Tables × Result Job
insert_with none p max_retries c t = (t, failure)
insert_with (some priority) p max_retries c t =
    if any (has_id c.fresh) t.jobs then (t, failure) else (
      record t { jobs = new_job p priority max_retries c ∷ t.jobs },
      ok (new_job p priority max_retries c),
    )

abbrev pub insert_job : CreateJobParams → ℤ → Context → Tables → Tables × Result Job
insert_job p max_retries c t = insert_with (check_priority p.priority) p max_retries c t

unfoldable pub create_job : CreateJobParams → Context → Tables → Tables × Result Job
create_job p c t = guarded c t (insert_job p (pos 0) c t)

unfoldable pub get_job : UuidNumber → Context → Tables → Result Job
get_job i c t =
    if c.up then (elim (find (has_id i) t.jobs) [ none ↦ no_rows | some j ↦ ok j ]) else failure

-- `CASE priority WHEN 'foreground' THEN 1 …`
abbrev pub priority_rank : Priority → ℕ
priority_rank foreground = 1
priority_rank background = 2
priority_rank best_effort = 3

-- The ORDER BY of ClaimNextJob.
abbrev pub claimed_first : Job → Job → Bool
claimed_first j k =
    lex_before (priority_rank j.priority) j.created_at (priority_rank k.priority) k.created_at

-- `status = 'pending'`, and SKIP LOCKED.
abbrev pub claimable : (UuidNumber → Bool) → Job → Bool
claimable locked j = is_pending j.status && not (locked j.id)

abbrev pub prefer : Job → Option Job → Job
prefer j none = j
prefer j (some k) = if claimed_first k j then k else j

-- The subselect: ORDER BY … LIMIT 1.
unfoldable pub next_job : (UuidNumber → Bool) → List Job → Option Job
next_job locked [] = none
next_job locked (j ∷ js) =
    let rest = next_job locked js in if claimable locked j then some (prefer j rest) else rest

abbrev pub claimed_job : String → Instant → Job → Job
claimed_job executor now j = record j {
  status = running;
  executor_id = some executor;
  started_at = some now;
  last_heartbeat = some now;
}

-- The UPDATE of the row that the subselect gives, if it gives one.
abbrev pub claim_row : Option Job → String → Context → Tables → Tables × Result Job
claim_row none executor c t = (t, no_rows)
claim_row (some j) executor c t = update_returning (has_id j.id) (claimed_job executor c.now) t

unfoldable pub claim_next_job : String → Context → Tables → Tables × Result Job
claim_next_job executor c t = guarded c t (claim_row (next_job c.locked t.jobs) executor c t)

-- `executor_id = $2`, which a NULL is not.
abbrev pub held_by : String → Option String → Bool
held_by executor none = false
held_by executor (some e) = str_eq e executor

unfoldable pub update_heartbeat :
    UuidNumber → String → Context → Tables → Tables × Result (Unit {0})
update_heartbeat i executor c t = guarded c t (
    update_jobs (λ j. has_id i j && (is_running j.status && held_by executor j.executor_id))
      (λ j. record j { last_heartbeat = some c.now }) t)

pub record CompleteJobParams : Type 0 where
  pub id : UuidNumber
  pub stdout : Option String
  pub stderr : Option String
  pub exit_code : Option ℤ

abbrev pub completed_job : CompleteJobParams → Instant → Job → Job
completed_job p now j = record j {
  status = completed;
  stdout = p.stdout;
  stderr = p.stderr;
  exit_code = p.exit_code;
  completed_at = some now;
}

unfoldable pub complete_job : CompleteJobParams → Context → Tables → Tables × Result Job
complete_job p c t =
    guarded c t
      (update_returning (λ j. has_id p.id j && is_running j.status) (completed_job p c.now) t)

pub record FailJobParams : Type 0 where
  pub id : UuidNumber
  pub stdout : Option String
  pub stderr : Option String
  pub exit_code : Option ℤ
  pub error_message : Option String

abbrev pub failed_job : FailJobParams → Instant → Job → Job
failed_job p now j = record j {
  status = failed;
  stdout = p.stdout;
  stderr = p.stderr;
  exit_code = p.exit_code;
  error_message = p.error_message;
  completed_at = some now;
}

unfoldable pub fail_job : FailJobParams → Context → Tables → Tables × Result Job
fail_job p c t =
    guarded c t
      (update_returning (λ j. has_id p.id j && is_running j.status) (failed_job p c.now) t)

unfoldable pub cancel_job : UuidNumber → Context → Tables → Tables × Result Job
cancel_job i c t = guarded c t (
    update_returning (λ j. has_id i j && is_pending j.status)
      (λ j. record j { status = cancelled; completed_at = some c.now }) t)

-- `status = 'running' AND last_heartbeat < NOW() - INTERVAL '15 seconds'`; a NULL heartbeat is
-- not stale.
abbrev pub is_stale : Instant → Job → Bool
is_stale now j =
    is_running j.status && elim j.last_heartbeat [ none ↦ false | some h ↦ ltb (h + 15000000) now ]

unfoldable pub find_stale_jobs : Context → Tables → Result (List Job)
find_stale_jobs c t = if c.up then ok (keep (is_stale c.now) t.jobs) else failure

abbrev pub reset_job : Job → Job
reset_job j = record j {
  status = pending;
  executor_id = none;
  started_at = none;
  last_heartbeat = none;
}

unfoldable pub reset_stale_job : UuidNumber → Context → Tables → Tables × Result (Unit {0})
reset_stale_job i c t =
    guarded c t (update_jobs (λ j. has_id i j && is_running j.status) reset_job t)

-- `completed_at < NOW() - $1::interval`, the interval in microseconds.
abbrev pub is_old : Instant → ℤ → Job → Bool
is_old now retention j =
    is_terminal j.status
    && elim j.completed_at [ none ↦ false | some e ↦ earlier_by e retention now ]

abbrev pub delete_jobs : (Job → Bool) → Tables → Tables
delete_jobs w t = record t {
  jobs = keep (λ j. not (w j)) t.jobs;
  attempts = keep (λ (a : JobAttempt). not (any (has_id a.job_id) (keep w t.jobs))) t.attempts;
}

unfoldable pub cleanup_old_jobs : ℤ → Context → Tables → Tables × Result (Unit {0})
cleanup_old_jobs retention c t = guarded c t (delete_jobs (is_old c.now retention) t, ok tt)

unfoldable pub delete_job : UuidNumber → Context → Tables → Tables × Result (Unit {0})
delete_job i c t = guarded c t (delete_jobs (has_id i) t, ok tt)

pub record ListJobsParams : Type 0 where
  pub status : String
  pub job_type : String
  pub priority : String
  pub limit : ℤ
  pub offset : ℤ

-- The parameters are Go strings, so `$1::text IS NULL` holds of none of them.
abbrev pub listed : ListJobsParams → Job → Bool
listed p j =
    str_eq (status_text j.status) p.status
    && str_eq j.job_type p.job_type
    && str_eq (priority_text j.priority) p.priority

-- ORDER BY created_at DESC LIMIT … OFFSET …; PostgreSQL refuses a negative LIMIT or OFFSET.
abbrev pub page : ℤ → ℤ → List Job → Result (List Job)
page (pos limit) (pos offset) js = ok (take limit (drop offset js))
page (pos limit) (negsuc offset) js = failure
page (negsuc limit) offset js = failure

abbrev pub newest_first : Job → Job → Bool
newest_first j k = ltb k.created_at j.created_at

unfoldable pub list_jobs : ListJobsParams → Context → Tables → Result (List Job)
list_jobs p c t =
    if c.up then page p.limit p.offset (sort_by newest_first (keep (listed p) t.jobs)) else failure

-- The CHECK constraint of `jobs.status`.
abbrev pub check_status : String → Option Status
check_status s =
    if str_eq s "pending"
    then some pending
    else if str_eq s "running"
    then some running
    else if str_eq s "completed"
    then some completed
    else if str_eq s "failed"
    then some failed
    else if str_eq s "cancelled"
    then some cancelled
    else none

abbrev pub restarted_at : Status → Instant → Option Instant → Option Instant
restarted_at running now none = some now
restarted_at _ now started = started

abbrev pub with_status : Status → Instant → Job → Job
with_status s now j = record j {
  status = s;
  started_at = restarted_at s now j.started_at;
  completed_at = if is_terminal s then some now else j.completed_at;
}

-- The server issues no such statement. A row that breaks the CHECK makes it fail.
unfoldable pub update_job_status : UuidNumber → String → Context → Tables → Tables × Result Job
update_job_status i s c t = guarded c t (elim (check_status s) [
  | none ↦ (t, if any (has_id i) t.jobs then failure else no_rows)
  | some status ↦ update_returning (has_id i) (with_status status c.now) t
])
