-- ===== src/Executor/Polling.antt =====
-- What the poll loop of internal/executor/executor.go guarantees: the bound on the jobs that run
-- at once, and when it gives up.
use executr.Prelude.{
  ℕ, suc, ◌+◌, ◌≤◌, ◌<◌, ◌≡◌, inl, inr, refl, ap, Bool, true, false, Option, none, some, List, [],
  ◌∷◌, length, any, ◌==◌, ltb, ltb→lt, arith, Bool-cases, if◌then◌else◌,
}
use executr.Models.{UuidNumber}
use executr.Executor.Poll.{
  Limits, Claim, network_error, nothing, job, Poller, started, Event, tick, finish, shutdown,
  drop_job, timeout, claimed, network_failed, step, poll,
}

-- A job that runs holds one slot, and there are no more slots than configured.
abbrev pub IsBounded : Limits → Poller → Type 0
IsBounded limits p = (p.slots ≡ length p.running_jobs) × (p.slots ≤ limits.max_jobs)

length-drop_job :
    (i : UuidNumber) (js : List UuidNumber)
    → any (λ j. i == j) js ≡ true
    → length js ≡ suc (length (drop_job i js))
unfolding any drop_job
length-drop_job i [] h = cc
length-drop_job i (j ∷ js) h = elim (Bool-cases (i == j)) [
  | inl e ↦ rw e refl
  | inr e ↦ rw e (ap suc (length-drop_job i js (rw e at h)))
]

-- The two tests of a poll.
pub by_tests {κ} :
    (P : Poller → Type κ) (a b : Bool) (p q : Poller)
    → P p
    → (b ≡ true → P q)
    → P (if a then p else if b then q else p)
by_tests P true b p q hp hq = hp
by_tests P false true p q hp hq = hq refl
by_tests P false false p q hp hq = hp

module _ (limits : Limits) where
  network_failed-IsBounded :
      (now : ℕ) (o : Option ℕ) (p : Poller)
      → IsBounded limits p
      → IsBounded limits (network_failed limits now o p)
  network_failed-IsBounded now none p b = b
  network_failed-IsBounded now (some start) p b =
      elim (Bool-cases (ltb (start + timeout limits) now)) [ inl e ↦ rw e b | inr e ↦ rw e b ]

  claimed-IsBounded :
      (now : ℕ) (c : Claim) (p : Poller)
      → p.slots < limits.max_jobs
      → IsBounded limits p
      → IsBounded limits (claimed limits now c p)
  claimed-IsBounded now network_error p free b = network_failed-IsBounded now p.failure_start p b
  claimed-IsBounded now nothing p free b = b
  claimed-IsBounded now (job i) p free b = ground arith

  step-IsBounded :
      (e : Event) (p : Poller) → IsBounded limits p → IsBounded limits (step limits e p)
  unfolding step
  step-IsBounded (tick now c) p b =
      by_tests (IsBounded limits) p.stopped (ltb p.slots limits.max_jobs) p _ b
        (λ free. claimed-IsBounded now c p (ltb→lt _ _ free) b)
  step-IsBounded (finish i) p b = elim (Bool-cases (any (λ j. i == j) p.running_jobs)) [
    | inl e ↦ rw e (omega (arith, b, length-drop_job i p.running_jobs e), omega (arith, b))
    | inr e ↦ rw e b
  ]
  step-IsBounded shutdown p b = b

  poll_from-IsBounded :
      (es : List Event) (p : Poller) → IsBounded limits p → IsBounded limits (poll limits es p)
  unfolding poll
  poll_from-IsBounded [] p b = b
  poll_from-IsBounded (e ∷ es) p b = poll_from-IsBounded es (step limits e p) (step-IsBounded e p b)

-- However polls, answers to claims and ends of jobs follow one another, each job that runs holds
-- one slot and no more jobs run at once than configured.
pub poll-IsBounded : (limits : Limits) (es : List Event) → IsBounded limits (poll limits es started)
poll-IsBounded limits es = poll_from-IsBounded limits es started (refl, omega arith)
