-- ===== src/Tests/Running.antt =====
-- The theorems on the executor's poll loop and on its reports at concrete data.
use executr.Prelude.{
  ◌≡◌, ◌⊎◌, refl, none, some, List, [], ◌∷◌, true, ascii, length, if◌then◌else◌, ◌==◌, find,
}
use mathlib.Core.Path.{subst}
use executr.Models
use executr.Models.{completed, failed}
use executr.Store.Row.{Job, Tables, get}
use executr.Client.Calls.{Call, complete_job, done}
use executr.Client.Contract.{IsRead, perform}
use executr.Executor.Cache.{get_binary, install}
use executr.Executor.Output.{truncate, truncate_output}
use executr.Executor.Poll.{
  Limits, network_error, nothing, job, started, Event, tick, finish, poll, claims_sent,
}
use executr.Executor.Polling.{IsBounded, poll-IsBounded}
use executr.Executor.GivingUp.{GaveUp, poll-GaveUp}
use executr.Executor.Runner.{Host, success, execute_job}
use executr.Executor.Reports.{Succeeds}
use executr.Executor.Delivery.{execute_job-ends}
use executr.Tests.Cache.{hash, join, world, full}
use executr.Tests.Remote.{report, codec, encoder, decoder}
use executr.Tests.Data.{at, busy, busy-IsValid, running_job}

abbrev limits : Limits
limits = record { max_jobs = 1; network_timeout = 5 }

-- The second poll finds the only slot taken.
abbrev polls : List Event
polls = tick 1000000000 (job 7) ∷ tick 2000000000 (job 8) ∷ finish 7 ∷ tick 3000000000 (job 9) ∷ []

poll-IsBounded_example : IsBounded limits (poll limits polls started)
poll-IsBounded_example = poll-IsBounded limits polls

-- The network fails for seven seconds.
abbrev failures : List Event
failures =
    tick 1000000000 nothing
    ∷ tick 2000000000 network_error
    ∷ tick 5000000000 network_error
    ∷ tick 9000000000 network_error
    ∷ []

gave_up : (poll limits failures started).stopped ≡ true
unfolding poll executr.Executor.Poll.step
gave_up = refl

poll-GaveUp_example : GaveUp limits (claims_sent limits failures started)
poll-GaveUp_example = poll-GaveUp limits failures (refl, (refl, (refl, (refl, tt)))) gave_up

abbrev host : Host
host = record {
  executor_id = "runner-1";
  job_dir = λ i. "/work/job";
  mkdir = λ d. none;
  fault_text = λ f. "fault";
  render = λ i. "2";
  parse = λ s. some 2;
  run = λ c. record { exit = success; stdout = ascii "ok"; stderr = [] };
  text = λ b. if length b == 0 then "" else "ok";
}

-- The job of `busy` that runs, with the hash of the binary that is downloaded.
abbrev claimed : Models.Job
claimed = record {
  id = 2;
  job_type = "build";
  binary_url = "https://bin.example/build";
  binary_sha256 = "aa";
  arguments = "-v" ∷ [];
  env_variables = ("HOME", "/tmp") ∷ [];
  priority = Models.foreground;
  status = Models.running;
  executor_id = "runner-1";
  stdout = "";
  stderr = "";
  exit_code = none;
  error_message = "";
  created_at = 2000;
  started_at = some 3000;
  completed_at = none;
  last_heartbeat = some 3000;
}

sent : (execute_job host hash join world claimed full).1 ≡ some (complete_job 2 report)
unfolding execute_job get_binary install truncate_output truncate find
sent = refl

is_read :
    (call : Call)
    → (execute_job host hash join world claimed full).1 ≡ some call
    → IsRead codec encoder call
is_read call e =
    let same : complete_job 2 report ≡ call = cc (sent, e) in
    subst (IsRead codec encoder) same ((refl, refl), refl)

running_there : get 2 busy ≡ some running_job
unfolding find
running_there = refl

execute_job-ends_example :
    (call : Call) × (t' : Tables) × (row : Job) × ((execute_job host hash join world claimed full).1
      ≡ some call)
    × (perform codec encoder decoder call (at 4000 4) (at 4000 5) busy ≡ some (t', done))
    × (get 2 t' ≡ some row)
    × (((row.status ≡ completed) × Succeeds host hash join world claimed full none)
        ⊎ ((row.status ≡ failed) × (Succeeds host hash join world claimed full none → ⊥)))
execute_job-ends_example =
    execute_job-ends host hash join world claimed full codec encoder decoder (at 4000 4) (at 4000 5)
      busy running_job refl refl (record { one = λ j. refl; many = λ js. refl }) is_read
      busy-IsValid refl running_there refl
