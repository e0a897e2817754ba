-- ===== src/Tests/Remote.antt =====
-- The theorems on the routes of the server and on its client at concrete data.
use executr.Prelude.{
  ◌+◌, ◌-◌, ◌≡◌, ◌<◌, ◌↔◌, ◌++◌, refl, ℕ, zero, suc, pos, Option, none, some, List, [], ◌∷◌, true,
  false, length, Bytes, ascii, bytes_eq, if◌then◌else◌, ◌==◌,
}
use executr.Models
use executr.Models.{UuidNumber, CompleteRequest}
use executr.Server.Http.{Method, Body, job, jobs, text, respond}
use executr.Server.Routing.{Codec, Request, Endpoint, serve, jobs_prefix}
use executr.Server.Dispatch.{panics}
use executr.Server.Admin.{no_gauges}
use executr.Lifecycle.Tables.{IsValid}
use executr.Server.Routes.{Libraries, Route, bulk_cancel, serve_route}
use executr.Server.Statements.{Runs}
use executr.Server.System.{ServerEvent, on_events}
use executr.Server.Refinement.{on_events-Runs}
use executr.Server.RoutesSafety.{SafeServed, serve_route_safe}
use executr.Client.Calls.{Encoder, Decoder, no_query}
use executr.Store.Row.{Context}
use executr.Tests.Json.{json}
use executr.Tests.Data.{at, busy, busy-IsValid}

abbrev pub report : CompleteRequest
report = record { executor_id = "runner-1"; stdout = "ok"; stderr = ""; exit_code = pos 0 }

abbrev pub zeros : ℕ → Bytes
zeros zero = []
zeros (suc n) = b'0' ∷ zeros n

-- A digit and 35 zeros.
abbrev pub render : UuidNumber → Bytes
render i = (48 + i) ∷ zeros 35

abbrev pub parse : Bytes → Option UuidNumber
parse [] = none
parse (d ∷ ds) = if length ds == 35 then some (d - 48) else none

-- A report is sent as the name of its executor.
abbrev pub decode_report : Bytes → Option CompleteRequest
decode_report b = if bytes_eq b (ascii "runner-1") then some report else none

abbrev pub codec : Codec
codec = record {
  env = json;
  parse_uuid = parse;
  decode_submission = λ b. none;
  decode_claim = λ b. some (record { executor_id = "runner-2"; executor_ip = "10.0.0.2" });
  decode_heartbeat = λ b. none;
  decode_complete = decode_report;
  decode_fail = λ b. none;
}

abbrev pub encoder : Encoder
encoder = record {
  render_uuid = render;
  encode_submission = λ s. [];
  encode_claim = λ r. ascii r.executor_id;
  encode_heartbeat = λ r. ascii r.executor_id;
  encode_complete = λ r. ascii r.executor_id;
  encode_fail = λ r. ascii r.executor_id;
}

abbrev pub read_job : Body → Option Models.Job
read_job (job j) = some j
read_job _ = none

abbrev pub read_jobs : Body → Option (List Models.Job)
read_jobs (jobs js) = some js
read_jobs _ = none

abbrev pub decoder : Decoder
decoder = record { decode_job = read_job; decode_jobs = read_jobs }

abbrev attempt : ℕ → Context × Context
attempt n = (at (4000 + n) 4, at (4000 + n) 5)

abbrev finishing : Bytes → Request
finishing path = record {
  method = Method.put;
  path = path;
  query = no_query;
  body = ascii "runner-1";
}

abbrev libraries : Libraries
libraries = record {
  codec = codec;
  decode_submissions = λ b. none;
  decode_cancellation = λ b. some (record { job_ids = some 1 ∷ []; job_type = ""; status = "" });
  database_error = "unreachable";
  metrics_page = respond 200 (text "");
}

-- A bulk cancellation of the background job.
serve_route_safe_example : SafeServed busy no_gauges (
    serve_route libraries bulk_cancel
      (record { method = Method.post; path = []; query = no_query; body = [] })
      (record { contexts = at 4000; seen = λ n. busy; now = 4000; pinged = true })
      busy
      no_gauges)
serve_route_safe_example =
    serve_route_safe libraries bulk_cancel
      (record { method = Method.post; path = []; query = no_query; body = [] })
      (record { contexts = at 4000; seen = λ n. busy; now = 4000; pinged = true }) busy no_gauges
      busy-IsValid

panics_example :
    (serve codec Endpoint.job_by_id
        (finishing (jobs_prefix ++ ascii "17"))
        (at 4000 4)
        (at 4000 5)
        busy
      ≡ none)
    ↔ ((0 < 2) × (2 < 36) × (bytes_eq (ascii "17") (ascii "claim") ≡ false))
panics_example =
    panics codec (finishing (jobs_prefix ++ ascii "17")) (ascii "17") (at 4000 4) (at 4000 5) busy
      refl

-- A monitor that finds a stale job, a claim and a cleaning.
abbrev day : List ServerEvent
day =
    ServerEvent.heartbeat_tick (at 20000000 6) (at 20000000) (λ n. [])
    ∷ ServerEvent.request (Route.job_api Endpoint.claim)
        (record {
          method = Method.post;
          path = ascii "/api/v1/jobs/claim";
          query = no_query;
          body = ascii "runner-2";
        })
        (record { contexts = at 20000001; seen = λ n. busy; now = 20000001; pinged = true })
    ∷ ServerEvent.cleaner_tick (at 30000000 8)
    ∷ []

on_events-Runs_example :
    let (t', g') = on_events libraries (pos 3600) day busy no_gauges in Runs busy t' × IsValid t'
on_events-Runs_example = on_events-Runs libraries (pos 3600) day busy no_gauges busy-IsValid
