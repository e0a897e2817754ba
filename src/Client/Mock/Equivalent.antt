-- ===== src/Client/Mock/Equivalent.antt =====
-- The mock of pkg/client/mock.go in place of the HTTP client and the server.
use executr.Prelude.{◌≡◌, false, some, List, any, find, to_int32}
use executr.Models.{Priority, UuidNumber}
use executr.Store.Row.{Tables, Context, has_id, get}
use executr.Store.Jobs.{check_priority, next_job}
use executr.Server.Convert.{IsMap}
use executr.Client.Calls.{
  Call, submit_job, get_job, list_jobs, cancel_job, claim_next_job, heartbeat, complete_job,
  fail_job,
}
use executr.Client.Mock.{MockJob, MockClient}
use executr.Client.Mock.Operations
use executr.Client.Mock.Agreement.{Agreement}
use executr.Client.Mock.Doubles.{IsOwned, IsHeld, IsVisit, SameFirst, waits}

-- What a call is to be for the two to agree. A submission has a known priority, variables with
-- distinct names and an id that is new; a claim visits first what the server would choose; a
-- heartbeat comes from the executor that has the job, and a report from no other, with an exit code
-- of 32 bits. Listings differ.
abbrev pub Fits : (List MockJob → List MockJob) → MockClient → Context → Tables → Call → Type 0
Fits visit m c t (submit_job s) =
    (q : Priority) × (check_priority s.priority ≡ some q)
    × IsMap s.env_variables
    × (any (has_id c.fresh) t.jobs ≡ false)
Fits visit m c t (get_job i) = Unit
Fits visit m c t (list_jobs f) = ⊥
Fits visit m c t (cancel_job i) = Unit
Fits visit m c t (claim_next_job e ip) =
    ((k : UuidNumber) → c.locked k ≡ false)
    × IsVisit visit m
    × SameFirst (next_job c.locked t.jobs) (find waits (visit m.jobs))
Fits visit m c t (heartbeat i e) = IsHeld e (get i t)
Fits visit m c t (complete_job i r) =
    (to_int32 r.exit_code ≡ r.exit_code) × IsOwned r.executor_id (get i t)
Fits visit m c t (fail_job i r) =
    (to_int32 r.exit_code ≡ r.exit_code) × IsOwned r.executor_id (get i t)
