-- ===== src/Client/Calls.antt =====
-- `HTTPClient` of pkg/client/client.go: the request of each operation, and what it makes of the
-- response. encoding/json, net/url and uuid.UUID.String are given by an encoder and a decoder; a
-- number in the query is read back as it was written.
use executr.Prelude.{
  ◌++◌, ℕ, ℤ, pos, negsuc, String, Option, none, some, List, [], ltb, if◌then◌else◌, Bytes, ascii,
  ◌==◌,
}
use executr.Models
use executr.Models.{
  UuidNumber, JobSubmission, ClaimRequest, HeartbeatRequest, CompleteRequest, FailRequest,
}
use executr.Server.Http.{
  Method, Detail, Body, Response, empty, text, error, job, jobs, bulk, bulk_cancel, stats,
  executors, health, nothing,
}
use executr.Server.Jobs.{ListQuery}
use executr.Server.Routing.{Request, Endpoint}

pub record ListJobsFilter : Type 0 where
  pub status : String
  pub job_type : String
  pub priority : String
  pub limit : ℤ
  pub offset : ℤ

-- The operations of the interface `Client` on jobs.
pub data Call : Type 0 where
  submit_job : JobSubmission → Call
  get_job : UuidNumber → Call
  list_jobs : ListJobsFilter → Call
  cancel_job : UuidNumber → Call
  claim_next_job : String → String → Call
  heartbeat : UuidNumber → String → Call
  complete_job : UuidNumber → CompleteRequest → Call
  fail_job : UuidNumber → FailRequest → Call

pub record Encoder : Type 0 where
  pub render_uuid : UuidNumber → Bytes
  pub encode_submission : JobSubmission → Bytes
  pub encode_claim : ClaimRequest → Bytes
  pub encode_heartbeat : HeartbeatRequest → Bytes
  pub encode_complete : CompleteRequest → Bytes
  pub encode_fail : FailRequest → Bytes

-- What json.Decode reads from a response where a job, or a list of jobs, is expected.
pub record Decoder : Type 0 where
  pub decode_job : Body → Option Models.Job
  pub decode_jobs : Body → Option (List Models.Job)

abbrev pub no_query : ListQuery
no_query = record { status = ""; job_type = ""; priority = ""; limit = none; offset = none }

-- A parameter is set where the number is positive.
abbrev pub if_positive : ℤ → Option ℤ
if_positive (pos n) = if ltb 0 n then some (pos n) else none
if_positive (negsuc n) = none

-- A text that is left empty is not set, and an absent parameter is read as the empty text.
abbrev pub filter_query : ListJobsFilter → ListQuery
filter_query f = record {
  status = f.status;
  job_type = f.job_type;
  priority = f.priority;
  limit = if_positive f.limit;
  offset = if_positive f.offset;
}

module _ (encoder : Encoder) where
  -- The paths below the base URL.
  abbrev pub job_path : UuidNumber → Bytes → Bytes
  job_path i sub = ascii "/api/v1/jobs/" ++ (encoder.render_uuid i ++ sub)

  abbrev pub plain : Method → Bytes → Bytes → Request
  plain m path body = record { method = m; path = path; query = no_query; body = body }

  unfoldable pub request : Call → Request
  request (submit_job s) = plain Method.post (ascii "/api/v1/jobs") (encoder.encode_submission s)
  request (get_job i) = plain Method.get (job_path i []) []
  request (list_jobs f) = record {
    method = Method.get;
    path = ascii "/api/v1/jobs";
    query = filter_query f;
    body = [];
  }
  request (cancel_job i) = plain Method.delete (job_path i []) []
  request (claim_next_job e ip) =
      plain Method.post (ascii "/api/v1/jobs/claim")
        (encoder.encode_claim (record { executor_id = e; executor_ip = ip }))
  request (heartbeat i e) =
      plain Method.put (job_path i (ascii "/heartbeat"))
        (encoder.encode_heartbeat (record { executor_id = e }))
  request (complete_job i r) =
      plain Method.put (job_path i (ascii "/complete")) (encoder.encode_complete r)
  request (fail_job i r) = plain Method.put (job_path i (ascii "/fail")) (encoder.encode_fail r)

-- `parseError`: the message and context of a JSON object, and the status and body of anything
-- else. `"%s"` of an object without an error is the empty text.
pub data ClientError : Type 0 where
  message : String → Detail → ClientError
  returned_status : ℕ → Body → ClientError

unfoldable pub parse_error : Response → ClientError
parse_error r = elim r.body [
  | empty ↦ returned_status r.status empty
  | text t ↦ returned_status r.status (text t)
  | error e d ↦ message e d
  | job j ↦ message "" nothing
  | jobs js ↦ returned_status r.status (jobs js)
  | bulk n s f rs ↦ message "" nothing
  | bulk_cancel n s f ↦ message "" nothing
  | stats ss ps n now ↦ message "" nothing
  | executors es ↦ returned_status r.status (executors es)
  | health h ↦ message "" nothing
]

pub data Outcome : Type 0 where
  got : Models.Job → Outcome
  got_all : List Models.Job → Outcome
  no_job : Outcome
  done : Outcome
  failed : ClientError → Outcome
  undecodable : Outcome

abbrev pub got_job : Option Models.Job → Outcome
got_job none = undecodable
got_job (some j) = got j

abbrev pub got_jobs : Option (List Models.Job) → Outcome
got_jobs none = undecodable
got_jobs (some js) = got_all js

module _ (decoder : Decoder) where
  abbrev pub no_content : Response → Outcome
  no_content r = if r.status == 204 then done else failed (parse_error r)

  unfoldable pub interpret : Call → Response → Outcome
  interpret (submit_job s) r =
      if r.status == 201 then got_job (decoder.decode_job r.body) else failed (parse_error r)
  interpret (get_job i) r =
      if r.status == 200 then got_job (decoder.decode_job r.body) else failed (parse_error r)
  interpret (list_jobs f) r =
      if r.status == 200 then got_jobs (decoder.decode_jobs r.body) else failed (parse_error r)
  interpret (cancel_job i) r = no_content r
  interpret (claim_next_job e ip) r =
      if r.status == 204
      then no_job
      else if r.status == 200
      then got_job (decoder.decode_job r.body)
      else failed (parse_error r)
  interpret (heartbeat i e) r = no_content r
  interpret (complete_job i q) r = no_content r
  interpret (fail_job i q) r = no_content r

-- The pattern of the server's routes that the path of a call matches.
abbrev pub endpoint : Call → Endpoint
endpoint (submit_job s) = Endpoint.jobs
endpoint (list_jobs f) = Endpoint.jobs
endpoint (claim_next_job e ip) = Endpoint.claim
endpoint _ = Endpoint.job_by_id
