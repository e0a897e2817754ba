-- ===== src/Tests/Serving.antt =====
-- The theorems on the handlers and workers of the server at concrete data.
use executr.Prelude.{
  ◌≡◌, ◌≤◌, refl, ℕ, zero, suc, pos, ◌*◌, ◌+◌, ◌^◌, some, List, [], ◌∷◌, false, String, not, All,
  arith, keep, length, find, none, inl,
}
use executr.Models.{JobSubmission, CompleteRequest, background}
use executr.Store.Row.{Job, Tables, Context, get, no_tables, ok}
use executr.Store.Retry.{is_retriable, get_retriable_jobs, increment_job_retry}
use executr.Store.Jobs.{claim_next_job}
use executr.Server.Backoff.{claimed_at_once}
use executr.Server.Listing.{unfiltered_empty}
use executr.Server.Http.{Method, BulkResult, respond, jobs}
use executr.Server.Jobs.{handle_list_jobs, ListQuery}
use executr.Server.Rounds.{alone, Revived, check_stale_jobs_lem}
use executr.Server.Workers.{check_stale_jobs, retry_failed_jobs, cleanup}
use executr.Server.Retries.{
  Retried, IsDueRetry, retriable, is_foreground, retry_failed_jobs_lem, foreground_waits,
}
use executr.Server.Retention.{Cleaned, cleanup_lem}
use executr.Server.Bulk.{handle_bulk_jobs}
use executr.Server.BulkLaws.{Reports, handle_bulk_jobs-Reports}
use executr.Tests.Json.{json}
use executr.Tests.Data.{
  at, queue, busy, done, broken, failed_one, busy-IsValid, done-IsValid, broken-IsValid, none_waits,
  none_waits-IsValid,
}

abbrev report : CompleteRequest
report = record { executor_id = "runner-1"; stdout = "ok"; stderr = ""; exit_code = pos 0 }

abbrev later : ℕ → Context
later n = at 20000000 n

check_stale_jobs_lem_example :
    Revived 20000000 (get 2 busy) (get 2 (check_stale_jobs (at 20000000 6) later alone busy))
check_stale_jobs_lem_example =
    check_stale_jobs_lem (at 20000000 6) later busy 2 busy-IsValid refl (λ n. refl)

retry_failed_jobs_lem_example :
    (js : List Job) × (get_retriable_jobs (at 20000000 6) broken ≡ ok js)
    × All (IsDueRetry 20000000) js
    × (length js ≤ 10)
    × Retried js later broken (retry_failed_jobs (at 20000000 6) later alone broken) 2
retry_failed_jobs_lem_example =
    retry_failed_jobs_lem (at 20000000 6) later broken 2 broken-IsValid refl (λ n. refl)

cleanup_lem_example :
    Cleaned 4000000000
      (1 * 3600 * 1000000)
      (get 2 done)
      (get 2 (cleanup (pos 1) (at 4000000000 6) done))
cleanup_lem_example = cleanup_lem 1 (at 4000000000 6) done 2 done-IsValid refl (omega arith)

-- One of them names no binary.
abbrev submission : String → JobSubmission
submission url = record {
  job_type = "build";
  binary_url = url;
  binary_sha256 = "";
  arguments = "-v" ∷ [];
  env_variables = ("HOME", "/tmp") ∷ [];
  priority = "background";
  max_retries = pos 2;
}

abbrev both : List JobSubmission
both = submission "https://bin.example/build" ∷ submission "" ∷ []

handle_bulk_jobs-Reports_example :
    let (t', r) = handle_bulk_jobs json "refused" Method.post (some both) (at 1000) no_tables in
    (rs : List BulkResult) × Reports both no_tables t' r rs
handle_bulk_jobs-Reports_example =
    handle_bulk_jobs-Reports json "refused" (at 1000) both no_tables (omega arith) (omega arith)

abbrev failed_jobs : ℕ → List Job
failed_jobs zero = failed_one ∷ []
failed_jobs (suc n) = record failed_one { id = n; priority = background } ∷ failed_jobs n

-- Ten background jobs and a foreground job have failed.
abbrev backlog : Tables
backlog = record { jobs = failed_jobs 10; attempts = [] }

ten_wait :
    10 ≤ length (keep (λ j. not (is_foreground j)) (keep (is_retriable 20000000) backlog.jobs))
unfolding keep
ten_wait = omega arith

selected : get_retriable_jobs (at 20000000 6) backlog ≡ ok (retriable 20000000 backlog)
unfolding get_retriable_jobs
selected = refl

foreground_waits_example : All (λ j. is_foreground j ≡ false) (retriable 20000000 backlog)
foreground_waits_example =
    foreground_waits (at 20000000 6) backlog (retriable 20000000 backlog) selected ten_wait

failed_there : get 2 none_waits ≡ some failed_one
unfolding find
failed_there = refl

claimed_at_once_example :
    (t' : Tables) × (row : Job) × (claim_next_job "runner-2"
        (at 6001 7)
        (increment_job_retry 2 (at 6000 6) none_waits).0
      ≡ (t', ok row))
    × (row.id ≡ 2)
    × (row.retry_after ≡ some (6000 + 60 * 1000000 * 2 ^ 0))
claimed_at_once_example =
    claimed_at_once 2 "runner-2" (at 6000 6) (at 6001 7) none_waits failed_one none_waits-IsValid
      refl refl refl failed_there refl (refl, (refl, tt))

abbrev unfiltered : ListQuery
unfiltered = record { status = ""; job_type = ""; priority = ""; limit = none; offset = none }

unfiltered_empty_example :
    handle_list_jobs json unfiltered (at 1000 7) queue ≡ respond 200 (jobs [])
unfiltered_empty_example =
    unfiltered_empty json unfiltered (at 1000 7) queue (inl refl) refl refl refl
