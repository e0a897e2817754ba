-- ===== src/Server/Safety.antt =====
-- What holds of every handler of internal/server/server.go: it keeps the invariant of the tables,
-- and an answer that is an error has changed nothing.
use executr.Prelude.{◌<◌, ◌≡◌, ◌⊎◌, refl, ◌||◌, Option, none, some, is_empty}
use executr.Models.{
  UuidNumber, JobSubmission, ClaimRequest, HeartbeatRequest, CompleteRequest, FailRequest,
}
use executr.Store.Row.{Tables, Context}
use executr.Store.Jobs
use executr.Store.Jobs.{CreateJobParams, insert_with, insert_job, check_priority}
use executr.Store.Statement.{Statement, exec}
use executr.Lifecycle.Tables.{IsValid}
use executr.Lifecycle.Updates.{complete_job-UpdatesOne, fail_job-UpdatesOne, cancel_job-UpdatesOne}
use executr.Lifecycle.Claiming.{claim_next_job-Claims}
use executr.Server.Http.{Method, Response}
use executr.Server.Convert.{EnvJson}
use executr.Server.Jobs.{handle_submit_job, handle_cancel_job, incomplete, create_params}
use executr.Server.Execution.{
  handle_claim_job, handle_heartbeat, handle_complete_job, handle_fail_job, complete_params,
  fail_params,
}
use executr.Server.Effects.{
  Effect, nothing, Effect-IsValid, Effect-error, UpdatesOne-Keeps, Claims-Keeps, create_job-Keeps,
  heartbeat-Keeps, exec_response-Effect, cancel_response-Effect, submitted-Effect,
  claim_response-Effect, refused-Effect,
}

-- A handler's request, its body decoded.
pub data Call : Type 0 where
  submit : Option JobSubmission → Call
  cancel : UuidNumber → Call
  claim : Method → Option ClaimRequest → Call
  heartbeat : UuidNumber → Option HeartbeatRequest → Call
  complete : UuidNumber → Option CompleteRequest → Call
  fail : UuidNumber → Option FailRequest → Call

-- The handler of the call; `c'` is the context of the second statement, which only a claim has.
unfoldable pub handle : EnvJson → Call → Context → Context → Tables → Tables × Response
handle json (submit body) c c' t = handle_submit_job json body c t
handle json (cancel i) c c' t = handle_cancel_job i c t
handle json (claim m body) c c' t = handle_claim_job json m body c c' t
handle json (heartbeat i body) c c' t = handle_heartbeat i body c t
handle json (complete i body) c c' t = handle_complete_job i body c t
handle json (fail i body) c c' t = handle_fail_job i body c t

-- In tables that satisfy the invariant, each handler that submits, cancels, claims, renews,
-- completes or fails a job does nothing to the tables, or answers below 400 and has run one
-- statement of the server, or, for a claim, two.
pub handle-Effect :
    (json : EnvJson) (call : Call) (c c' : Context) (t : Tables)
    → IsValid t
    → Effect t (handle json call c c' t)
unfolding handle exec
handle-Effect json (submit none) c c' t v = unfold handle_submit_job in nothing _
handle-Effect json (submit (some s)) c c' t v =
    unfold handle_submit_job in
    refused-Effect (incomplete s) t _ _ (
      submitted-Effect t (Statement.create_job (create_params json s)) c json
        (Jobs.create_job (create_params json s) c t) refl
        (create_job-Keeps (create_params json s) c t))
handle-Effect json (cancel i) c c' t v =
    unfold handle_cancel_job in
    cancel_response-Effect t (Statement.cancel_job i) c (Jobs.cancel_job i c t) refl
      (UpdatesOne-Keeps i _ _ c t (Jobs.cancel_job i c t) (cancel_job-UpdatesOne i c t v))
handle-Effect json (claim Method.post none) c c' t v = unfold handle_claim_job in nothing _
handle-Effect json (claim Method.post (some r)) c c' t v =
    unfold handle_claim_job in
    refused-Effect (is_empty r.executor_id || is_empty r.executor_ip) t _ _ (
      claim_response-Effect t (Statement.claim_next_job r.executor_id) c json r c'
        (Jobs.claim_next_job r.executor_id c t) refl
        (Claims-Keeps r.executor_id c t _ (claim_next_job-Claims r.executor_id c t v)))
handle-Effect json (claim _ body) c c' t v = unfold handle_claim_job in nothing _
handle-Effect json (heartbeat i none) c c' t v = unfold handle_heartbeat in nothing _
handle-Effect json (heartbeat i (some r)) c c' t v =
    unfold handle_heartbeat in
    refused-Effect (is_empty r.executor_id) t _ _ (
      exec_response-Effect t (Statement.update_heartbeat i r.executor_id) c
        "Failed to update heartbeat" (Jobs.update_heartbeat i r.executor_id c t) refl
        (heartbeat-Keeps i r.executor_id c t))
handle-Effect json (complete i none) c c' t v = unfold handle_complete_job in nothing _
handle-Effect json (complete i (some r)) c c' t v =
    unfold handle_complete_job in
    refused-Effect (is_empty r.executor_id) t _ _ (
      exec_response-Effect t (Statement.complete_job (complete_params i r)) c
        "Failed to complete job" (Jobs.complete_job (complete_params i r) c t) refl
        (UpdatesOne-Keeps i _ _ c t _ (complete_job-UpdatesOne (complete_params i r) c t v)))
handle-Effect json (fail i none) c c' t v = unfold handle_fail_job in nothing _
handle-Effect json (fail i (some r)) c c' t v =
    unfold handle_fail_job in
    refused-Effect (is_empty r.executor_id || is_empty r.error_message) t _ _ (
      exec_response-Effect t (Statement.fail_job (fail_params i r)) c "Failed to mark job as failed"
        (Jobs.fail_job (fail_params i r) c t) refl
        (UpdatesOne-Keeps i _ _ c t _ (fail_job-UpdatesOne (fail_params i r) c t v)))

-- In tables that satisfy the invariant, a handler that submits, cancels, claims, renews, completes
-- or fails a job leaves tables that satisfy it, and answers with a status below 400 or has changed
-- nothing.
pub handle_safe :
    (json : EnvJson) (call : Call) (c c' : Context) (t : Tables)
    → IsValid t
    → let (t', r) = handle json call c c' t in IsValid t' × ((r.status < 400) ⊎ (t' ≡ t))
handle_safe json call c c' t v =
    let e : Effect t (handle json call c c' t) = handle-Effect json call c c' t v in
    (Effect-IsValid e v, Effect-error e)
