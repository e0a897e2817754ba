-- ===== src/Server/Jobs.antt =====
-- The handlers of internal/server/server.go that submit, list, show and cancel jobs.
use executr.Prelude.{
  ℤ, pos, negsuc, String, Bool, ◌||◌, Option, none, some, List, map, is_empty, if◌then◌else◌,
  to_int32, ltb,
}
use executr.Models.{JobSubmission, UuidNumber}
use executr.Store.Row.{Job, JobAttempt, Tables, Context, Result, ok, no_rows, failure}
use executr.Store.Jobs.{CreateJobParams, create_job, list_jobs, get_job, cancel_job}
use executr.Store.Attempts.{get_job_attempts}
use executr.Server.Http.{Response, respond, write_error, empty, job, jobs, nothing, job_id}
use executr.Server.Convert.{EnvJson, db_job_to_model}

abbrev pub incomplete : JobSubmission → Bool
incomplete s = is_empty s.job_type || is_empty s.binary_url

-- The query parameters: a number is what strconv.Atoi reads, `none` where it is absent or
-- refused. `int32(parsed)` keeps the low 32 bits.
pub record ListQuery : Type 0 where
  pub status : String
  pub job_type : String
  pub priority : String
  pub limit : Option ℤ
  pub offset : Option ℤ

abbrev pub limit_of : Option ℤ → ℤ
limit_of none = pos 100
limit_of (some (pos n)) = if ltb 0 n then to_int32 (pos n) else pos 100
limit_of (some (negsuc n)) = pos 100

abbrev pub offset_of : Option ℤ → ℤ
offset_of none = pos 0
offset_of (some (pos n)) = to_int32 (pos n)
offset_of (some (negsuc n)) = pos 0

module _ (json : EnvJson) where
  abbrev pub create_params : JobSubmission → CreateJobParams
  create_params s = record {
    job_type = s.job_type;
    binary_url = s.binary_url;
    binary_sha256 = s.binary_sha256;
    arguments = s.arguments;
    env_variables = json.marshal s.env_variables;
    priority = s.priority;
  }

  abbrev pub submitted : Tables × Result Job → Tables × Response
  submitted (t, ok j) = (t, respond 201 (job (db_job_to_model json j)))
  submitted (t, no_rows) = (t, write_error 500 "Failed to create job" nothing)
  submitted (t, failure) = (t, write_error 500 "Failed to create job" nothing)

  unfoldable pub handle_submit_job : Option JobSubmission → Context → Tables → Tables × Response
  handle_submit_job none c t = (t, write_error 400 "Invalid request body" nothing)
  handle_submit_job (some s) c t =
      if incomplete s
      then (t, write_error 400 "type and binary_url are required" nothing)
      else submitted (create_job (create_params s) c t)

  abbrev pub list_response : Result (List Job) → Response
  list_response (ok js) = respond 200 (jobs (map (db_job_to_model json) js))
  list_response no_rows = write_error 500 "Failed to list jobs" nothing
  list_response failure = write_error 500 "Failed to list jobs" nothing

  unfoldable pub handle_list_jobs : ListQuery → Context → Tables → Response
  handle_list_jobs q c t = list_response (
      list_jobs
        (record {
          status = q.status;
          job_type = q.job_type;
          priority = q.priority;
          limit = limit_of q.limit;
          offset = offset_of q.offset;
        })
        c t)

  abbrev pub get_response : UuidNumber → Result Job → Response
  get_response i (ok j) = respond 200 (job (db_job_to_model json j))
  get_response i no_rows = write_error 404 "Job not found" (job_id i)
  get_response i failure = write_error 500 "Failed to get job" nothing

  -- The attempts are read as well, and nothing of them reaches the response.
  unfoldable pub handle_get_job : UuidNumber → Context → Context → Tables → Response
  handle_get_job i c c' t =
      let attempts : Result (List JobAttempt) = get_job_attempts i c' t in
      get_response i (get_job i c t)

abbrev pub cancel_response : Tables × Result Job → Tables × Response
cancel_response (t, ok j) = (t, respond 204 empty)
cancel_response (t, no_rows) = (t, write_error 500 "Failed to cancel job" nothing)
cancel_response (t, failure) = (t, write_error 500 "Failed to cancel job" nothing)

unfoldable pub handle_cancel_job : UuidNumber → Context → Tables → Tables × Response
handle_cancel_job i c t = cancel_response (cancel_job i c t)
