-- ===== src/Server/Bulk.antt =====
-- The bulk handlers of internal/server/server.go.
use executr.Prelude.{
  ℕ, suc, ◌+◌, ◌-◌, ◌==◌, ltb, String, true, false, not, ◌||◌, Option, none, some, List, [], ◌∷◌,
  length, is_empty, if◌then◌else◌, to_int32,
}
use executr.Models.{UuidNumber, JobSubmission}
use executr.Store.Row.{Job, Tables, Context, Result, ok, no_rows, failure}
use executr.Store.Jobs.{cancel_job}
use executr.Store.Retry.{create_job_with_retries}
use executr.Server.Http.{
  Method, BulkResult, Response, respond, write_error, method_not_allowed, bulk, bulk_cancel,
  nothing,
}
use executr.Server.Convert.{EnvJson}
use executr.Server.Jobs.{create_params, incomplete}

abbrev pub refused_item : ℕ → String → BulkResult
refused_item i message = record { index = i; success = false; job_id = none; error = message }

-- The text of a database error is the driver's.
abbrev pub created_item : ℕ → String → Result Job → BulkResult
created_item i message (ok j) = record { index = i; success = true; job_id = some j.id; error = "" }
created_item i message no_rows = refused_item i message
created_item i message failure = refused_item i message

abbrev pub successes : List BulkResult → ℕ
successes [] = 0
successes (r ∷ rs) = if r.success then suc (successes rs) else successes rs

abbrev pub bulk_status : ℕ → ℕ → ℕ
bulk_status done total = if done == 0 then 400 else if ltb done total then 206 else 201

abbrev pub bulk_response : ℕ → Tables × List BulkResult → Tables × Response
bulk_response total (t, rs) = (
  t,
  respond (bulk_status (successes rs) total) (bulk total (successes rs) (total - successes rs) rs),
)

module _ (json : EnvJson) (message : String) where
  -- One submission: its entry of `results`, and the tables after it.
  unfoldable pub submit_item : ℕ → JobSubmission → Context → Tables → Tables × BulkResult
  submit_item i s c t =
      if incomplete s
      then (t, refused_item i "type and binary_url are required")
      else let r : Tables × Result Job =
          create_job_with_retries
            (record { job = create_params json s; max_retries = to_int32 s.max_retries }) c t in
        (r.0, created_item i message r.1)

  -- The loop; the context of the i-th statement is `cs i`.
  unfoldable pub submit_all :
      (ℕ → Context) → ℕ → List JobSubmission → Tables → Tables × List BulkResult
  submit_all cs i [] t = (t, [])
  submit_all cs i (s ∷ ss) t =
      let (t', r) = submit_item i s (cs i) t in
      let (t'', rs) = submit_all cs (suc i) ss t' in (t'', r ∷ rs)

  abbrev pub bulk_decoded : (ℕ → Context) → Option (List JobSubmission) → Tables → Tables × Response
  bulk_decoded cs none t = (t, write_error 400 "Invalid request body" nothing)
  bulk_decoded cs (some ss) t =
      if length ss == 0
      then (t, write_error 400 "No jobs provided" nothing)
      else if ltb 100 (length ss)
      then (t, write_error 400 "Too many jobs (max 100)" nothing)
      else bulk_response (length ss) (submit_all cs 0 ss t)

  unfoldable pub handle_bulk_jobs :
      Method → Option (List JobSubmission) → (ℕ → Context) → Tables → Tables × Response
  handle_bulk_jobs Method.post body cs t = bulk_decoded cs body t
  handle_bulk_jobs _ body cs t = (t, method_not_allowed)

-- The body of a bulk cancellation; an id is what uuid.Parse reads of the text.
pub record CancelRequest : Type 0 where
  pub job_ids : List (Option UuidNumber)
  pub job_type : String
  pub status : String

abbrev pub counted : Result Job → ℕ × ℕ → ℕ × ℕ
counted (ok j) (cancelled, failed) = (suc cancelled, failed)
counted no_rows (cancelled, failed) = (cancelled, suc failed)
counted failure (cancelled, failed) = (cancelled, suc failed)

-- The loop over `job_ids`: the tables, and how many were cancelled and how many failed.
unfoldable pub cancel_all :
    (ℕ → Context) → ℕ → List (Option UuidNumber) → Tables → ℕ × ℕ → Tables × (ℕ × ℕ)
cancel_all cs n [] t count = (t, count)
cancel_all cs n (none ∷ is) t (cancelled, failed) =
    cancel_all cs (suc n) is t (cancelled, suc failed)
cancel_all cs n (some i ∷ is) t count =
    let r : Tables × Result Job = cancel_job i (cs n) t in
    cancel_all cs (suc n) is r.0 (counted r.1 count)

abbrev pub cancel_report : Tables × (ℕ × ℕ) → Tables × Response
cancel_report (t, (cancelled, failed)) =
    (t, respond 200 (bulk_cancel cancelled failed (cancelled + failed)))

abbrev pub cancel_decoded : (ℕ → Context) → Option CancelRequest → Tables → Tables × Response
cancel_decoded cs none t = (t, write_error 400 "Invalid request body" nothing)
cancel_decoded cs (some r) t =
    if ltb 0 (length r.job_ids)
    then cancel_report (cancel_all cs 0 r.job_ids t (0, 0))
    else if not (is_empty r.job_type) || not (is_empty r.status)
    then (t, write_error 501 "Cancellation by criteria not yet implemented" nothing)
    else (t, write_error 400 "Must provide job_ids or criteria" nothing)

unfoldable pub handle_bulk_cancel :
    Method → Option CancelRequest → (ℕ → Context) → Tables → Tables × Response
handle_bulk_cancel Method.post body cs t = cancel_decoded cs body t
handle_bulk_cancel _ body cs t = (t, method_not_allowed)
