-- ===== src/Models.antt =====
-- internal/models/job.go: priorities, statuses, the job as the API shows it, and the requests.
-- A UUID is the number that its 16 bytes stand for, an instant the microseconds since a fixed
-- epoch, a text that Go leaves empty for "absent" the empty text.
use executr.Prelude.{ℕ, ℤ, String, Option, List}

abbrev pub UuidNumber : Type 0
UuidNumber = ℕ

abbrev pub Instant : Type 0
Instant = ℕ

pub data Priority : Type 0 where
  foreground background best_effort : Priority

pub data Status : Type 0 where
  pending running completed failed cancelled : Status

-- The string constants behind the Go types.
abbrev pub priority_text : Priority → String
priority_text foreground = "foreground"
priority_text background = "background"
priority_text best_effort = "best_effort"

abbrev pub status_text : Status → String
status_text pending = "pending"
status_text running = "running"
status_text completed = "completed"
status_text failed = "failed"
status_text cancelled = "cancelled"

abbrev pub EnvMap : Type 0
EnvMap = List (String × String)

pub record Job : Type 0 where
  pub id : UuidNumber
  pub job_type : String
  pub binary_url : String
  pub binary_sha256 : String
  pub arguments : List String
  pub env_variables : EnvMap
  pub priority : Priority
  pub status : Status
  pub executor_id : String
  pub stdout : String
  pub stderr : String
  pub exit_code : Option ℤ
  pub error_message : String
  pub created_at : Instant
  pub started_at : Option Instant
  pub completed_at : Option Instant
  pub last_heartbeat : Option Instant

pub record JobSubmission : Type 0 where
  pub job_type : String
  pub binary_url : String
  pub binary_sha256 : String
  pub arguments : List String
  pub env_variables : EnvMap
  pub priority : String
  pub max_retries : ℤ

pub record ClaimRequest : Type 0 where
  pub executor_id : String
  pub executor_ip : String

pub record HeartbeatRequest : Type 0 where
  pub executor_id : String

pub record CompleteRequest : Type 0 where
  pub executor_id : String
  pub stdout : String
  pub stderr : String
  pub exit_code : ℤ

pub record FailRequest : Type 0 where
  pub executor_id : String
  pub error_message : String
  pub stdout : String
  pub stderr : String
  pub exit_code : ℤ
