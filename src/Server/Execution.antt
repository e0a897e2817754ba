-- ===== src/Server/Execution.antt =====
-- The handlers of internal/server/server.go that executors call: claim, heartbeat, complete, fail.
use executr.Prelude.{
  zero, suc, ℤ, pos, negsuc, String, ◌||◌, Option, none, some, is_empty, if◌then◌else◌, to_int32,
}
use executr.Models.{UuidNumber, ClaimRequest, HeartbeatRequest, CompleteRequest, FailRequest}
use executr.Store.Row.{Job, Tables, Context, Result, ok, no_rows, failure}
use executr.Store.Jobs.{
  CompleteJobParams, FailJobParams, claim_next_job, update_heartbeat, complete_job, fail_job,
}
use executr.Store.Attempts.{record_job_attempt}
use executr.Server.Http.{
  Method, Response, respond, write_error, method_not_allowed, empty, job, nothing,
}
use executr.Server.Convert.{EnvJson, db_job_to_model}

module _ (json : EnvJson) where
  -- After a claim, the attempt is recorded; a failure to do so is only logged.
  abbrev pub claim_response : ClaimRequest → Context → Tables × Result Job → Tables × Response
  claim_response claim c (t, no_rows) = (t, respond 204 empty)
  claim_response claim c (t, failure) = (t, write_error 500 "Failed to claim job" nothing)
  claim_response claim c (t, ok j) = (
    (record_job_attempt
        (record { job_id = j.id; executor_id = claim.executor_id; executor_ip = claim.executor_ip })
        c t).0,
    respond 200 (job (db_job_to_model json j)),
  )

  abbrev pub claim_decoded : Option ClaimRequest → Context → Context → Tables → Tables × Response
  claim_decoded none c c' t = (t, write_error 400 "Invalid request body" nothing)
  claim_decoded (some claim) c c' t =
      if is_empty claim.executor_id || is_empty claim.executor_ip
      then (t, write_error 400 "executor_id and executor_ip are required" nothing)
      else claim_response claim c' (claim_next_job claim.executor_id c t)

  -- The second context is the attempt's.
  unfoldable pub handle_claim_job :
      Method → Option ClaimRequest → Context → Context → Tables → Tables × Response
  handle_claim_job Method.post body c c' t = claim_decoded body c c' t
  handle_claim_job _ body c c' t = (t, method_not_allowed)

abbrev pub exec_response : {A : Type 0} → String → Tables × Result A → Tables × Response
exec_response message (t, ok a) = (t, respond 204 empty)
exec_response message (t, no_rows) = (t, write_error 500 message nothing)
exec_response message (t, failure) = (t, write_error 500 message nothing)

unfoldable pub handle_heartbeat :
    UuidNumber → Option HeartbeatRequest → Context → Tables → Tables × Response
handle_heartbeat i none c t = (t, write_error 400 "Invalid request body" nothing)
handle_heartbeat i (some r) c t =
    if is_empty r.executor_id
    then (t, write_error 400 "executor_id is required" nothing)
    else exec_response "Failed to update heartbeat" (update_heartbeat i r.executor_id c t)

abbrev pub complete_params : UuidNumber → CompleteRequest → CompleteJobParams
complete_params i r = record {
  id = i;
  stdout = some r.stdout;
  stderr = some r.stderr;
  exit_code = some (to_int32 r.exit_code);
}

unfoldable pub handle_complete_job :
    UuidNumber → Option CompleteRequest → Context → Tables → Tables × Response
handle_complete_job i none c t = (t, write_error 400 "Invalid request body" nothing)
handle_complete_job i (some r) c t =
    if is_empty r.executor_id
    then (t, write_error 400 "executor_id is required" nothing)
    else exec_response "Failed to complete job" (complete_job (complete_params i r) c t)

abbrev pub text_if_set : String → Option String
text_if_set s = if is_empty s then none else some s

abbrev pub int_if_set : ℤ → Option ℤ
int_if_set (pos zero) = none
int_if_set (pos (suc n)) = some (to_int32 (pos (suc n)))
int_if_set (negsuc n) = some (to_int32 (negsuc n))

abbrev pub fail_params : UuidNumber → FailRequest → FailJobParams
fail_params i r = record {
  id = i;
  stdout = text_if_set r.stdout;
  stderr = text_if_set r.stderr;
  exit_code = int_if_set r.exit_code;
  error_message = some r.error_message;
}

unfoldable pub handle_fail_job :
    UuidNumber → Option FailRequest → Context → Tables → Tables × Response
handle_fail_job i none c t = (t, write_error 400 "Invalid request body" nothing)
handle_fail_job i (some r) c t =
    if is_empty r.executor_id || is_empty r.error_message
    then (t, write_error 400 "executor_id and error_message are required" nothing)
    else exec_response "Failed to mark job as failed" (fail_job (fail_params i r) c t)
