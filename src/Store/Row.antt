-- ===== src/Store/Row.antt =====
-- internal/db/models.go and the tables of internal/server/migrations: the rows, the two tables,
-- and what a statement depends on besides its arguments.
use executr.Prelude.{
  ℕ, ℤ, String, Bool, true, false, Option, none, some, List, [], ◌==◌, if◌then◌else◌, find, update,
  ◌≡◌, arith,
}
use executr.Models.{UuidNumber, Instant, Priority, Status}

-- A NULL column is `none`. `retry_count` starts at 0 and only counts up, so it is a count; it is
-- compared with the signed `max_retries`.
pub record Job : Type 0 where
  pub id : UuidNumber
  pub job_type : String
  pub binary_url : String
  pub binary_sha256 : String
  pub arguments : List String
  pub env_variables : String
  pub priority : Priority
  pub status : Status
  pub executor_id : Option String
  pub stdout : Option String
  pub stderr : Option String
  pub exit_code : Option ℤ
  pub error_message : Option String
  pub created_at : Instant
  pub started_at : Option Instant
  pub completed_at : Option Instant
  pub last_heartbeat : Option Instant
  pub max_retries : ℤ
  pub retry_count : ℕ
  pub retry_after : Option Instant

-- The CHECK constraint of `job_attempts.status`.
pub data AttemptStatus : Type 0 where
  running completed failed timeout : AttemptStatus

pub record JobAttempt : Type 0 where
  pub id : UuidNumber
  pub job_id : UuidNumber
  pub executor_id : String
  pub executor_ip : String
  pub started_at : Instant
  pub ended_at : Option Instant
  pub status : AttemptStatus
  pub error_message : Option String

-- The order of the rows stands for nothing: SQL fixes it only by ORDER BY.
pub record Tables : Type 0 where
  pub jobs : List Job
  pub attempts : List JobAttempt

abbrev pub no_tables : Tables
no_tables = record { jobs = []; attempts = [] }

-- One statement's surroundings: NOW(), the value of gen_random_uuid(), whether the connection
-- works, and the rows that other transactions have locked.
pub record Context : Type 0 where
  pub now : Instant
  pub fresh : UuidNumber
  pub up : Bool
  pub locked : UuidNumber → Bool

-- What a statement answers: rows, `sql.ErrNoRows`, or any other error.
pub data Result {ℓ} (A : Type ℓ) : Type ℓ where
  ok : A → Result A
  no_rows : Result A
  failure : Result A

-- A statement that does not reach the database changes nothing.
abbrev pub guarded : {A : Type 0} → Context → Tables → Tables × Result A → Tables × Result A
guarded c t r = if c.up then r else (t, failure)

module _ {A : Type 0} (c : Context) (t : Tables) (q : Tables × Result A) where
  pub guarded_up : c.up ≡ true → guarded c t q ≡ q
  guarded_up u = ground arith

  pub guarded_down : c.up ≡ false → guarded c t q ≡ (t, failure)
  guarded_down u = ground arith

abbrev pub has_id : UuidNumber → Job → Bool
has_id i j = j.id == i

abbrev pub get : UuidNumber → Tables → Option Job
get i t = find (has_id i) t.jobs

-- `UPDATE jobs SET f WHERE w RETURNING …`, of which QueryRow reads the first row.
abbrev pub update_returning : (Job → Bool) → (Job → Job) → Tables → Tables × Result Job
update_returning w f t =
    let t' : Tables = record t { jobs = update w f t.jobs } in
    (t', elim (find w t.jobs) [ none ↦ no_rows | some j ↦ ok (f j) ])

-- `UPDATE jobs SET f WHERE w`, by Exec.
abbrev pub update_jobs : (Job → Bool) → (Job → Job) → Tables → Tables × Result (Unit {0})
update_jobs w f t = let t' : Tables = record t { jobs = update w f t.jobs } in (t', ok tt)
