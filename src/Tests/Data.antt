-- ===== src/Tests/Data.antt =====
-- Jobs, tables and moments for the tests.
use executr.Prelude.{ℕ, ℤ, pos, String, true, false, none, some, List, [], ◌∷◌, ◌++◌}
use executr.Models.{foreground, background, cancelled}
use executr.Store.Row.{Job, Tables, Context}
use executr.Store.Jobs.{
  CreateJobParams, CompleteJobParams, FailJobParams, new_job, claimed_job, completed_job,
  failed_job, claim_next_job,
}
use executr.Store.Jobs
use executr.Store.Retry
use executr.Store.Retry.{CreateJobWithRetriesParams}
use executr.Store.Statement.{Statement, exec, run}
use executr.Lifecycle.Tables.{IsValid}
use executr.Lifecycle.Reachable.{run-reachable}

abbrev pub at : ℕ → ℕ → Context
at now fresh = record { now = now; fresh = fresh; up = true; locked = λ i. false }

abbrev pub params : String → CreateJobParams
params priority = record {
  job_type = "build";
  binary_url = "https://bin.example/build";
  binary_sha256 = "";
  arguments = "-v" ∷ [];
  env_variables = "";
  priority = priority;
}

abbrev pub background_job : Job
background_job = new_job (params "background") background (pos 3) (at 1000 1)

abbrev pub foreground_job : Job
foreground_job = new_job (params "foreground") foreground (pos 3) (at 2000 2)

-- Two jobs wait: the background job is the older one.
abbrev pub queue : Tables
queue = record { jobs = foreground_job ∷ background_job ∷ []; attempts = [] }

abbrev pub submissions : List (Statement × Context)
submissions =
    (
      Statement.create_job_with_retries (record { job = params "background"; max_retries = pos 3 }),
      at 1000 1,
    )
    ∷ (
      Statement.create_job_with_retries (record { job = params "foreground"; max_retries = pos 3 }),
      at 2000 2,
    )
    ∷ []

abbrev pub claim : Statement × Context
claim = (Statement.claim_next_job "runner-1", at 3000 3)

abbrev pub running_job : Job
running_job = claimed_job "runner-1" 3000 foreground_job

abbrev pub busy : Tables
busy = record { jobs = running_job ∷ background_job ∷ []; attempts = [] }

abbrev pub completion : CompleteJobParams
completion = record { id = 2; stdout = some "ok"; stderr = some ""; exit_code = some (pos 0) }

abbrev pub completed_one : Job
completed_one = completed_job completion 4000 running_job

abbrev pub done : Tables
done = record { jobs = completed_one ∷ background_job ∷ []; attempts = [] }

abbrev pub failing : FailJobParams
failing = record {
  id = 2;
  stdout = none;
  stderr = some "boom";
  exit_code = some (pos 1);
  error_message = some "Job failed with non-zero exit code";
}

abbrev pub failed_one : Job
failed_one = failed_job failing 4000 running_job

abbrev pub broken : Tables
broken = record { jobs = failed_one ∷ background_job ∷ []; attempts = [] }

pub queue-IsValid : IsValid queue
unfolding run exec Retry.create_job_with_retries executr.Prelude.any
queue-IsValid = run-reachable submissions

pub busy-IsValid : IsValid busy
unfolding run exec Retry.create_job_with_retries Jobs.claim_next_job Jobs.next_job
    executr.Prelude.any executr.Prelude.update
busy-IsValid = run-reachable (submissions ++ (claim ∷ []))

pub done-IsValid : IsValid done
unfolding run exec Retry.create_job_with_retries Jobs.claim_next_job Jobs.complete_job
    executr.Prelude.update Jobs.next_job executr.Prelude.any
done-IsValid =
    run-reachable (submissions ++ (claim ∷ (Statement.complete_job completion, at 4000 4) ∷ []))

pub broken-IsValid : IsValid broken
unfolding run exec Retry.create_job_with_retries Jobs.claim_next_job Jobs.fail_job
    executr.Prelude.update Jobs.next_job executr.Prelude.any
broken-IsValid =
    run-reachable (submissions ++ (claim ∷ (Statement.fail_job failing, at 4000 4) ∷ []))

-- The job that waits is cancelled.
abbrev pub none_waits : Tables
none_waits = record {
  jobs = failed_one ∷ record background_job { status = cancelled; completed_at = some 5000 } ∷ [];
  attempts = [];
}

pub none_waits-IsValid : IsValid none_waits
unfolding run exec Retry.create_job_with_retries Jobs.claim_next_job Jobs.fail_job Jobs.cancel_job
    executr.Prelude.update Jobs.next_job executr.Prelude.any
none_waits-IsValid = run-reachable (
    submissions
    ++ (claim ∷ (Statement.fail_job failing, at 4000 4) ∷ (Statement.cancel_job 1, at 5000 5) ∷ []))

-- Two submissions, a claim, its attempt, and the report of success.
abbrev pub life : List (Statement × Context)
life =
    submissions
    ++ (claim
        ∷ (
          Statement.record_job_attempt
              (record { job_id = 2; executor_id = "runner-1"; executor_ip = "10.0.0.1" }),
          at 3000 4,
        )
        ∷ (Statement.complete_job completion, at 4000 4)
        ∷ [])
