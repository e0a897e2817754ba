-- ===== src/Server/Routing.antt =====
-- How internal/server/server.go sends a request to its handler: handleJobs, handleJobByID and the
-- patterns of setupRoutes. Bodies are decoded by encoding/json and identifiers by uuid.Parse,
-- which are given by a codec.
use executr.Prelude.{
  ltb, leb, Option, none, some, [], length, take, drop, Bytes, ascii, bytes_eq, if◌then◌else◌,
}
use executr.Models.{
  UuidNumber, JobSubmission, ClaimRequest, HeartbeatRequest, CompleteRequest, FailRequest,
}
use executr.Store.Row.{Tables, Context}
use executr.Server.Http.{
  Method, get, post, Response, respond, write_error, method_not_allowed, text, id_text,
}
use executr.Server.Convert.{EnvJson}
use executr.Server.Jobs.{
  ListQuery, handle_submit_job, handle_list_jobs, handle_get_job, handle_cancel_job,
}
use executr.Server.Execution.{
  handle_claim_job, handle_heartbeat, handle_complete_job, handle_fail_job,
}

-- `none` is a text that is refused.
pub record Codec : Type 0 where
  pub env : EnvJson
  pub parse_uuid : Bytes → Option UuidNumber
  pub decode_submission : Bytes → Option JobSubmission
  pub decode_claim : Bytes → Option ClaimRequest
  pub decode_heartbeat : Bytes → Option HeartbeatRequest
  pub decode_complete : Bytes → Option CompleteRequest
  pub decode_fail : Bytes → Option FailRequest

pub record Request : Type 0 where
  pub method : Method
  pub path : Bytes
  pub query : ListQuery
  pub body : Bytes

abbrev pub jobs_prefix : Bytes
jobs_prefix = ascii "/api/v1/jobs/"

abbrev pub not_found : Response
not_found = respond 404 (text "404 page not found")

module _ (codec : Codec) where
  unfoldable pub handle_jobs : Request → Context → Tables → Tables × Response
  handle_jobs r c t = elim r.method [
    | post ↦ handle_submit_job codec.env (codec.decode_submission r.body) c t
    | get ↦ (t, handle_list_jobs codec.env r.query c t)
    | _ ↦ (t, method_not_allowed)
  ]

  abbrev pub job_resource : UuidNumber → Method → Context → Context → Tables → Tables × Response
  job_resource i Method.get c c' t = (t, handle_get_job codec.env i c c' t)
  job_resource i Method.delete c c' t = handle_cancel_job i c t
  job_resource i _ c c' t = (t, method_not_allowed)

  abbrev pub only_put : Method → Tables → Tables × Response → Tables × Response
  only_put Method.put t p = p
  only_put _ t p = (t, method_not_allowed)

  -- The switch over the rest of the path.
  abbrev pub sub_path :
      UuidNumber → Bytes → Request → Context → Context → Tables → Tables × Response
  sub_path i rest r c c' t =
      if bytes_eq rest []
      then job_resource i r.method c c' t
      else if bytes_eq rest (ascii "/")
      then job_resource i r.method c c' t
      else if bytes_eq rest (ascii "/heartbeat")
      then only_put r.method t (handle_heartbeat i (codec.decode_heartbeat r.body) c t)
      else if bytes_eq rest (ascii "/complete")
      then only_put r.method t (handle_complete_job i (codec.decode_complete r.body) c t)
      else if bytes_eq rest (ascii "/fail")
      then only_put r.method t (handle_fail_job i (codec.decode_fail r.body) c t)
      else (t, not_found)

  abbrev pub parsed :
      Option UuidNumber → Bytes → Request → Context → Context → Tables → Tables × Response
  parsed none id_str r c c' t = (t, write_error 400 "Invalid job ID" (id_text id_str))
  parsed (some i) id_str r c c' t = sub_path i (drop 36 id_str) r c c' t

  -- `none` is the panic of `idStr[:36]` on a shorter text: net/http drops the connection.
  abbrev pub id_part : Bytes → Request → Context → Context → Tables → Option (Tables × Response)
  id_part id_str r c c' t =
      if bytes_eq id_str (ascii "claim")
      then some (handle_claim_job codec.env r.method (codec.decode_claim r.body) c c' t)
      else if ltb (length id_str) 36
      then none
      else some (parsed (codec.parse_uuid (take 36 id_str)) id_str r c c' t)

  unfoldable pub handle_job_by_id :
      Request → Context → Context → Tables → Option (Tables × Response)
  handle_job_by_id r c c' t =
      if leb (length r.path) (length jobs_prefix)
      then some (t, respond 400 (text "Job ID required"))
      else id_part (drop (length jobs_prefix) r.path) r c c' t

-- The patterns of the jobs API.
pub data Endpoint : Type 0 where
  jobs job_by_id claim : Endpoint

-- The handler that an endpoint names.
unfoldable pub serve :
    Codec → Endpoint → Request → Context → Context → Tables → Option (Tables × Response)
serve codec jobs r c c' t = some (handle_jobs codec r c t)
serve codec job_by_id r c c' t = handle_job_by_id codec r c c' t
serve codec claim r c c' t =
    some (handle_claim_job codec.env r.method (codec.decode_claim r.body) c c' t)
