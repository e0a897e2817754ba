-- ===== src/Client/Mock.antt =====
-- The state of `MockClient` of pkg/client/mock.go: the jobs by their ids, and the functions that
-- replace an operation; and the changes that the operations make of a job.
pub mod Operations
pub mod Same
pub mod Agreement
pub mod Doubles
pub mod Submission
pub mod Claim
pub mod Equivalent
use executr.Prelude.{
  ℕ, zero, suc, ℤ, pos, negsuc, String, Bool, true, false, ◌&&◌, ◌||◌, not, Option, none, some,
  List, [], ◌∷◌, ltb, ◌==◌, is_empty, str_eq, if◌then◌else◌, keep, find, any, update, drop, take,
  length,
}
use executr.Models.{
  UuidNumber, Instant, EnvMap, Status, pending, running, completed, failed, cancelled, status_text,
  JobSubmission, CompleteRequest, FailRequest,
}
use executr.Client.Calls.{ListJobsFilter, Call}
use executr.Client.Errors.{GoError, sentinel, err_job_not_found, err_bad_request, err_unauthorized}
use executr.Store.Jobs.{is_pending, is_running}

-- A `models.Job` of which no constraint holds: the priority is any text, and `none` in
-- `created_at` is Go's zero time.
pub record MockJob : Type 0 where
  pub id : UuidNumber
  pub job_type : String
  pub binary_url : String
  pub binary_sha256 : String
  pub arguments : List String
  pub env_variables : EnvMap
  pub priority : String
  pub status : Status
  pub executor_id : String
  pub stdout : String
  pub stderr : String
  pub exit_code : Option ℤ
  pub error_message : String
  pub created_at : Option Instant
  pub started_at : Option Instant
  pub completed_at : Option Instant
  pub last_heartbeat : Option Instant

pub record HealthResponse : Type 0 where
  pub status : String
  pub database : String

pub data HealthReply : Type 0 where
  health_response : HealthResponse → HealthReply
  health_error : GoError → HealthReply

pub data Reply : Type 0 where
  got : MockJob → Reply
  got_all : List MockJob → Reply
  no_job : Reply
  done : Reply
  refused : GoError → Reply

-- The fields that tests may set; `none` is nil.
pub record Replacements : Type 0 where
  pub submit_job_func : Option (JobSubmission → Reply)
  pub get_job_func : Option (UuidNumber → Reply)
  pub list_jobs_func : Option (ListJobsFilter → Reply)
  pub cancel_job_func : Option (UuidNumber → Reply)
  pub claim_next_job_func : Option (String → String → Reply)
  pub heartbeat_func : Option (UuidNumber → String → Reply)
  pub complete_job_func : Option (UuidNumber → CompleteRequest → Reply)
  pub fail_job_func : Option (UuidNumber → FailRequest → Reply)
  pub health_func : Option HealthReply

pub record MockClient : Type 0 where
  pub jobs : List MockJob
  pub replaced : Replacements

abbrev pub no_replacements : Replacements
no_replacements = record {
  submit_job_func = none;
  get_job_func = none;
  list_jobs_func = none;
  cancel_job_func = none;
  claim_next_job_func = none;
  heartbeat_func = none;
  complete_job_func = none;
  fail_job_func = none;
  health_func = none;
}

abbrev pub new_mock_client : MockClient
new_mock_client = record { jobs = []; replaced = no_replacements }

abbrev pub is_job : UuidNumber → MockJob → Bool
is_job i j = j.id == i

-- `m.jobs[id]`, and `m.jobs[job.ID] = job`.
abbrev pub job_at : UuidNumber → MockClient → Option MockJob
job_at i m = find (is_job i) m.jobs

abbrev pub put_job : MockJob → MockClient → MockClient
put_job j m = record m { jobs = j ∷ keep (λ x. not (is_job j.id x)) m.jobs }

-- A change of the job that the map's pointer leads to.
abbrev pub change_job : UuidNumber → (MockJob → MockJob) → MockClient → MockClient
change_job i f m = record m { jobs = update (is_job i) f m.jobs }

abbrev pub submitted_job : UuidNumber → JobSubmission → MockJob
submitted_job fresh s = record {
  id = fresh;
  job_type = s.job_type;
  binary_url = s.binary_url;
  binary_sha256 = s.binary_sha256;
  arguments = s.arguments;
  env_variables = s.env_variables;
  priority = s.priority;
  status = pending;
  executor_id = "";
  stdout = "";
  stderr = "";
  exit_code = none;
  error_message = "";
  created_at = none;
  started_at = none;
  completed_at = none;
  last_heartbeat = none;
}

-- The filters of ListJobs: an empty one passes every job. A nil filter passes and cuts as one of
-- empty texts and zeros does.
abbrev pub passes : String → String → Bool
passes wanted text = is_empty wanted || str_eq text wanted

abbrev pub passes_filter : ListJobsFilter → MockJob → Bool
passes_filter f j =
    passes f.status (status_text j.status)
    && passes f.job_type j.job_type
    && passes f.priority j.priority

abbrev pub cut : ℤ → (ℕ → List MockJob → List MockJob) → List MockJob → List MockJob
cut (pos n) f js = if ltb 0 n && ltb n (length js) then f n js else js
cut (negsuc n) f js = js

abbrev pub page : ListJobsFilter → List MockJob → List MockJob
page f js = cut f.limit take (cut f.offset drop js)

abbrev pub claim_of : String → MockJob → MockJob
claim_of e j = record j { status = running; executor_id = e }

abbrev pub completion_of : CompleteRequest → MockJob → MockJob
completion_of r j = record j {
  status = completed;
  stdout = r.stdout;
  stderr = r.stderr;
  exit_code = some r.exit_code;
}

abbrev pub nonzero_code : ℤ → Option ℤ → Option ℤ
nonzero_code (pos zero) old = old
nonzero_code (pos (suc n)) old = some (pos (suc n))
nonzero_code (negsuc n) old = some (negsuc n)

abbrev pub failure_of : FailRequest → MockJob → MockJob
failure_of r j = record j {
  status = failed;
  error_message = r.error_message;
  stdout = r.stdout;
  stderr = r.stderr;
  exit_code = nonzero_code r.exit_code j.exit_code;
}
