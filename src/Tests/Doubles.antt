-- ===== src/Tests/Doubles.antt =====
-- The theorems on the mock client and on the errors of the client at concrete data.
use executr.Prelude.{◌≡◌, String, none, some, List, [], ◌∷◌, arith}
use executr.Models.{UuidNumber, pending, running}
use executr.Store.Row.{Job}
use executr.Server.Http.{Response, error, nothing}
use executr.Client.Calls.{Call, ClientError, message, returned_status}
use executr.Client.Errors.{GoError}
use executr.Client.Recognition.{answered, call_error, Unrecognised, call_error-Unrecognised}
use executr.Client.Mock.{MockJob, MockClient, no_replacements}
use executr.Client.Mock.Same.{Same}
use executr.Client.Mock.Agreement.{Agreement}
use executr.Tests.Json.{json}
use executr.Tests.Remote.{decoder}

-- Jobs and rows in one order.
abbrev Aligned : List MockJob → List Job → Type 0
Aligned [] [] = Unit
Aligned [] (r ∷ rs) = ⊥
Aligned (j ∷ js) [] = ⊥
Aligned (j ∷ js) (r ∷ rs) = Same json j r × Aligned js rs

abbrev mock_job : UuidNumber → String → MockJob
mock_job i priority = record {
  id = i;
  job_type = "build";
  binary_url = "https://bin.example/build";
  binary_sha256 = "";
  arguments = "-v" ∷ [];
  env_variables = [];
  priority = priority;
  status = pending;
  executor_id = "";
  stdout = "";
  stderr = "";
  exit_code = none;
  error_message = "";
  created_at = none;
  started_at = none;
  completed_at = none;
  last_heartbeat = none;
}

abbrev mock : MockClient
mock = record {
  jobs =
      record (mock_job 2 "foreground") { status = running; executor_id = "runner-1" }
      ∷ mock_job 1 "background"
      ∷ [];
  replaced = no_replacements;
}

-- The job is not there, and the server answers 500.
abbrev not_there : Response
not_there = record { status = 500; body = error "Failed to cancel job" nothing }

abbrev written : ClientError → String
written (message text detail) = text
written (returned_status n body) = "server returned an error"

call_error-Unrecognised_example :
    (e : GoError) × (call_error decoder written "" (Call.cancel_job 7) (answered not_there)
      ≡ some e)
    × Unrecognised e
call_error-Unrecognised_example =
    call_error-Unrecognised decoder written "" (Call.cancel_job 7) (answered not_there)
      (omega arith)
