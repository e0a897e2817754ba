-- ===== src/Executor/Poll.antt =====
-- `pollForJobs` of internal/executor/executor.go: the slots of `jobSem`, the jobs that run in them,
-- and the count of time since the network fails. What the client answers to a claim, and when jobs
-- end, are events; durations and instants are nanoseconds.
use executr.Prelude.{
  ℕ, ◌+◌, ◌-◌, ◌*◌, ltb, ◌==◌, Bool, true, false, Option, none, some, List, [], ◌∷◌, ◌++◌, any,
  if◌then◌else◌,
}
use executr.Models.{UuidNumber}

-- The two fields of `Config` that the loop reads.
pub record Limits : Type 0 where
  pub max_jobs : ℕ
  pub network_timeout : ℕ

-- What `claimJob` returns.
pub data Claim : Type 0 where
  network_error : Claim
  nothing : Claim
  job : UuidNumber → Claim

pub record Poller : Type 0 where
  pub slots : ℕ
  pub running_jobs : List UuidNumber
  pub failure_start : Option ℕ
  pub stopped : Bool

abbrev pub started : Poller
started = record { slots = 0; running_jobs = []; failure_start = none; stopped = false }

-- `tick` is a poll with the answer that a claim would get, `finish` the end of `executeJob`, and
-- `shutdown` the end of the context.
pub data Event : Type 0 where
  tick : ℕ → Claim → Event
  finish : UuidNumber → Event
  shutdown : Event

-- One occurrence of the job leaves.
unfoldable pub drop_job : UuidNumber → List UuidNumber → List UuidNumber
drop_job i [] = []
drop_job i (j ∷ js) = let rest = drop_job i js in if i == j then js else j ∷ rest

module _ (limits : Limits) where
  -- `time.Duration(e.cfg.NetworkTimeout)*time.Second`.
  abbrev pub timeout : ℕ
  timeout = limits.network_timeout * 1000000000

  abbrev pub network_failed : ℕ → Option ℕ → Poller → Poller
  network_failed now none p = record p { failure_start = some now }
  network_failed now (some start) p =
      if ltb (start + timeout) now then record p { stopped = true } else p

  -- The slot is taken before the claim, and given back where no job comes of it.
  abbrev pub claimed : ℕ → Claim → Poller → Poller
  claimed now network_error p = network_failed now p.failure_start p
  claimed now nothing p = record p { failure_start = none }
  claimed now (job i) p = record p {
    slots = p.slots + 1;
    running_jobs = i ∷ p.running_jobs;
    failure_start = none;
  }

  unfoldable pub step : Event → Poller → Poller
  step (tick now c) p =
      if p.stopped then p else if ltb p.slots limits.max_jobs then claimed now c p else p
  step (finish i) p =
      if any (λ j. i == j) p.running_jobs
      then record p { slots = p.slots - 1; running_jobs = drop_job i p.running_jobs }
      else p
  step shutdown p = record p { stopped = true }

  -- The claim that an event sends, with its instant.
  unfoldable pub claim_sent : Event → Poller → List (ℕ × Claim)
  claim_sent (tick now c) p =
      if p.stopped then [] else if ltb p.slots limits.max_jobs then (now, c) ∷ [] else []
  claim_sent (finish i) p = []
  claim_sent shutdown p = []

  unfoldable pub poll : List Event → Poller → Poller
  poll [] p = p
  poll (e ∷ es) p = poll es (step e p)

  unfoldable pub claims_sent : List Event → Poller → List (ℕ × Claim)
  claims_sent [] p = []
  claims_sent (e ∷ es) p = claim_sent e p ++ claims_sent es (step e p)
