-- ===== src/Client/Contract.antt =====
-- What a call of pkg/client/client.go to the server of internal/server/server.go is to do: its
-- operation on the job store.
use executr.Prelude.{
  ◌≡◌, false, length, is_empty, some, none, List, ◌≡◌, false, Bool, true, String, Option, none,
  some, List, map, length, is_empty,
}
use executr.Models
use executr.Models.{
  UuidNumber, EnvMap, JobSubmission, ClaimRequest, HeartbeatRequest, CompleteRequest, FailRequest,
}
use executr.Store.Row.{Job, Tables, Context, Result, ok, no_rows, failure}
use executr.Store.Jobs
use executr.Store.Attempts.{record_job_attempt}
use executr.Server.Http.{nothing, job_id, job, jobs}
use executr.Server.Convert.{EnvJson, db_job_to_model}
use executr.Server.Jobs.{incomplete, create_params, limit_of, offset_of}
use executr.Server.Execution.{complete_params, fail_params}
use executr.Server.Routing.{Codec, serve}
use executr.Client.Calls.{
  Call, submit_job, get_job, list_jobs, cancel_job, claim_next_job, heartbeat, complete_job,
  fail_job, Encoder, Decoder, request, interpret, endpoint, Outcome, got, got_all, no_job, done,
  failed, message,
}

-- What one request of a call does, and the outcome that the client makes of its response where it does
-- not try again: the handler's tables, and `none` where the handler panics. Sending has the retries.
abbrev pub perform :
    Codec → Encoder → Decoder → Call → Context → Context → Tables → Option (Tables × Outcome)
perform codec encoder decoder call c c' t =
    elim (serve codec (endpoint call) (request encoder call) c c' t) [
      | none ↦ none
      | some (t', r) ↦ some (t', interpret decoder call r)
    ]

-- A job, or a list of them, is read from a response as the server wrote it.
pub record ReadsJobs (decoder : Decoder) : Type 0 where
  pub one : (j : Models.Job) → decoder.decode_job (job j) ≡ some j
  pub many : (js : List Models.Job) → decoder.decode_jobs (jobs js) ≡ some js

module _ (codec : Codec) (encoder : Encoder) where
  -- An identifier is written in 36 bytes and read back.
  abbrev pub IsReadId : UuidNumber → Type 0
  IsReadId i =
      (length (encoder.render_uuid i) ≡ 36) × (codec.parse_uuid (encoder.render_uuid i) ≡ some i)

  -- The server reads the identifier and the body of a call as the client wrote them.
  abbrev pub IsRead : Call → Type 0
  IsRead (submit_job s) = codec.decode_submission (encoder.encode_submission s) ≡ some s
  IsRead (get_job i) = IsReadId i
  IsRead (list_jobs f) = Unit
  IsRead (cancel_job i) = IsReadId i
  IsRead (claim_next_job e ip) =
      let r : ClaimRequest = record { executor_id = e; executor_ip = ip } in
      codec.decode_claim (encoder.encode_claim r) ≡ some r
  IsRead (heartbeat i e) =
      let r : HeartbeatRequest = record { executor_id = e } in
      IsReadId i × (codec.decode_heartbeat (encoder.encode_heartbeat r) ≡ some r)
  IsRead (complete_job i r) =
      IsReadId i × (codec.decode_complete (encoder.encode_complete r) ≡ some r)
  IsRead (fail_job i r) = IsReadId i × (codec.decode_fail (encoder.encode_fail r) ≡ some r)

-- The fields that the server requires are there.
abbrev pub IsFull : Call → Type 0
IsFull (submit_job s) = incomplete s ≡ false
IsFull (claim_next_job e ip) = (is_empty e ≡ false) × (is_empty ip ≡ false)
IsFull (heartbeat i e) = is_empty e ≡ false
IsFull (complete_job i r) = is_empty r.executor_id ≡ false
IsFull (fail_job i r) = (is_empty r.executor_id ≡ false) × (is_empty r.error_message ≡ false)
IsFull _ = Unit

-- The failure of a statement: of the database, or of an update that finds no row; not that a job is
-- not there.
abbrev pub is_server_error : Outcome → Bool
is_server_error (failed (message text nothing)) = true
is_server_error _ = false

-- The outcome of a statement of which only success matters.
abbrev pub acknowledged : {A : Type 0} → String → Tables × Result A → Tables × Outcome
acknowledged text (t, ok a) = (t, done)
acknowledged text (t, no_rows) = (t, failed (message text nothing))
acknowledged text (t, failure) = (t, failed (message text nothing))

module _ (env : EnvJson) where
  abbrev pub shown : Job → Outcome
  shown j = got (db_job_to_model env j)

  abbrev pub created : Tables × Result Job → Tables × Outcome
  created (t, ok j) = (t, shown j)
  created (t, no_rows) = (t, failed (message "Failed to create job" nothing))
  created (t, failure) = (t, failed (message "Failed to create job" nothing))

  abbrev pub fetched : UuidNumber → Result Job → Outcome
  fetched i (ok j) = shown j
  fetched i no_rows = failed (message "Job not found" (job_id i))
  fetched i failure = failed (message "Failed to get job" nothing)

  abbrev pub listed : Result (List Job) → Outcome
  listed (ok js) = got_all (map (db_job_to_model env) js)
  listed no_rows = failed (message "Failed to list jobs" nothing)
  listed failure = failed (message "Failed to list jobs" nothing)

  abbrev pub claimed : String → String → Context → Tables × Result Job → Tables × Outcome
  claimed e ip c (t, ok j) = (
    (record_job_attempt (record { job_id = j.id; executor_id = e; executor_ip = ip }) c t).0,
    shown j,
  )
  claimed e ip c (t, no_rows) = (t, no_job)
  claimed e ip c (t, failure) = (t, failed (message "Failed to claim job" nothing))

  -- The operations of the job store, read as a client's.
  unfoldable pub on_store : Call → Context → Context → Tables → Tables × Outcome
  on_store (submit_job s) c c' t = created (Jobs.create_job (create_params env s) c t)
  on_store (get_job i) c c' t = (t, fetched i (Jobs.get_job i c t))
  on_store (list_jobs f) c c' t = (
    t,
    listed (
        Jobs.list_jobs
          (record {
            status = f.status;
            job_type = f.job_type;
            priority = f.priority;
            limit = limit_of (some f.limit);
            offset = offset_of (some f.offset);
          })
          c t),
  )
  on_store (cancel_job i) c c' t = acknowledged "Failed to cancel job" (Jobs.cancel_job i c t)
  on_store (claim_next_job e ip) c c' t = claimed e ip c' (Jobs.claim_next_job e c t)
  on_store (heartbeat i e) c c' t =
      acknowledged "Failed to update heartbeat" (Jobs.update_heartbeat i e c t)
  on_store (complete_job i r) c c' t =
      acknowledged "Failed to complete job" (Jobs.complete_job (complete_params i r) c t)
  on_store (fail_job i r) c c' t =
      acknowledged "Failed to mark job as failed" (Jobs.fail_job (fail_params i r) c t)
