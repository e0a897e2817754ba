-- ===== src/Executor/GivingUp.antt =====
-- When the poll loop of internal/executor/executor.go stops by itself: the network has failed for
-- longer than the configured time.
use executr.Prelude.{
  ℕ, ◌+◌, ◌*◌, ◌<◌, ◌≡◌, refl, sym, ap, ◌∙◌, Bool, true, false, Option, none, some, List, [], ◌∷◌,
  ◌++◌, inl, inr, any, ◌==◌, All, All-append, ltb, ltb→lt, Bool-cases, if◌then◌else◌,
}
use mathlib.Core.List.{append_assoc, append-nil}
use mathlib.Core.Path.{subst}
use executr.Executor.Poll.{
  Limits, Claim, network_error, nothing, job, Poller, started, Event, tick, finish, shutdown,
  timeout, claimed, network_failed, step, poll, claim_sent, claims_sent,
}

abbrev pub Log : Type 0
Log = List (ℕ × Claim)

abbrev pub Fails : ℕ × Claim → Type 0
Fails (now, c) = c ≡ network_error

-- A failed claim at `start`, and failures only since then.
abbrev pub FailsSince : ℕ → Log → Type 0
FailsSince start log =
    (before : Log) × (after : Log) × (log ≡ before ++ ((start, network_error) ∷ after))
    × All Fails after

-- The last claim failed, and since a claim that failed longer before than the configured seconds all have.
abbrev pub GaveUp : Limits → Log → Type 0
GaveUp limits log =
    (start : ℕ) × (now : ℕ) × (init : Log) × FailsSince start init
    × (log ≡ init ++ ((now, network_error) ∷ []))
    × (start + limits.network_timeout * 1000000000 < now)

abbrev pub is_shutdown : Event → Bool
is_shutdown shutdown = true
is_shutdown _ = false

module _ (limits : Limits) where
  -- What the loop's variables say of the claims so far.
  abbrev Recorded : Bool → Option ℕ → Log → Type 0
  Recorded true o log = GaveUp limits log
  Recorded false none log = Unit
  Recorded false (some start) log = FailsSince start log

  FailsSince-append :
      (start now : ℕ) (log : Log)
      → FailsSince start log
      → FailsSince start (log ++ ((now, network_error) ∷ []))
  FailsSince-append start now log (before, after, e, fails) = (
    before,
    after ++ ((now, network_error) ∷ []),
    ap (λ l. l ++ ((now, network_error) ∷ [])) e
        ∙ append_assoc before ((start, network_error) ∷ after) ((now, network_error) ∷ []),
    All-append Fails after ((now, network_error) ∷ []) fails (refl, tt),
  )

  failed-Recorded :
      (now : ℕ) (log : Log) (p : Poller) (o : Option ℕ)
      → p.failure_start ≡ o
      → p.stopped ≡ false
      → Recorded false o log
      → let q = network_failed limits now o p in
        Recorded q.stopped q.failure_start (log ++ ((now, network_error) ∷ []))
  failed-Recorded now log p none e going h =
      subst (λ b. Recorded b (some now) (log ++ ((now, network_error) ∷ []))) (sym going)
        (log, [], refl, tt)
  failed-Recorded now log p (some start) e going h =
      elim (Bool-cases (ltb (start + timeout limits) now)) [
        | inl late ↦ rw late (start, now, log, h, refl, ltb→lt _ _ late)
        | inr soon ↦ rw (soon, e, going) (FailsSince-append start now log h)
      ]

  claimed-Recorded :
      (now : ℕ) (c : Claim) (log : Log) (p : Poller)
      → p.stopped ≡ false
      → Recorded p.stopped p.failure_start log
      → let q = claimed limits now c p in
        Recorded q.stopped q.failure_start (log ++ ((now, c) ∷ []))
  claimed-Recorded now network_error log p going h =
      failed-Recorded now log p p.failure_start refl going
        (subst (λ b. Recorded b p.failure_start log) going h)
  claimed-Recorded now nothing log p going h =
      subst (λ b. Recorded b none (log ++ ((now, nothing) ∷ []))) (sym going) tt
  claimed-Recorded now (job i) log p going h =
      subst (λ b. Recorded b none (log ++ ((now, job i) ∷ []))) (sym going) tt

  abbrev Holds : Log → Poller → Type 0
  Holds log p = Recorded p.stopped p.failure_start log

  by_tests :
      (a b : Bool) (p q : Poller) (x log : Log)
      → Holds log p
      → (a ≡ false → Holds (log ++ x) q)
      → Holds (log ++ (if a then [] else if b then x else [])) (if a then p else if b then q else p)
  by_tests true b p q x log hp hq = subst (λ l. Holds l p) (sym (append-nil log)) hp
  by_tests false true p q x log hp hq = hq refl
  by_tests false false p q x log hp hq = subst (λ l. Holds l p) (sym (append-nil log)) hp

  step-Recorded :
      (e : Event) (p : Poller) (log : Log)
      → is_shutdown e ≡ false
      → Holds log p
      → Holds (log ++ claim_sent limits e p) (step limits e p)
  unfolding step claim_sent
  step-Recorded (tick now c) p log s h =
      by_tests p.stopped (ltb p.slots limits.max_jobs) p (claimed limits now c p) ((now, c) ∷ [])
        log h (λ going. claimed-Recorded now c log p going h)
  step-Recorded (finish i) p log s h =
      subst (λ l. Holds l (step limits (finish i) p)) (sym (append-nil log))
        (elim (Bool-cases (any (λ j. i == j) p.running_jobs)) [ inl e ↦ rw e h | inr e ↦ rw e h ])
  step-Recorded shutdown p log s h = cc

  poll-Recorded :
      (es : List Event) (p : Poller) (log : Log)
      → All (λ e. is_shutdown e ≡ false) es
      → Holds log p
      → Holds (log ++ claims_sent limits es p) (poll limits es p)
  unfolding poll claims_sent
  poll-Recorded [] p log s h = subst (λ l. Holds l p) (sym (append-nil log)) h
  poll-Recorded (e ∷ es) p log s h =
      subst (λ l. Holds l (poll limits es (step limits e p)))
        (append_assoc log (claim_sent limits e p) (claims_sent limits es (step limits e p)))
        (poll-Recorded es (step limits e p) (log ++ claim_sent limits e p) s.1
          (step-Recorded e p log s.0 h))

-- While the executor is not shut down, the loop stops only after a claim that failed, where all
-- claims since one that failed more than the configured number of seconds before have failed, and
-- sends no claim after that.
pub poll-GaveUp :
    (limits : Limits) (es : List Event)
    → All (λ e. is_shutdown e ≡ false) es
    → (poll limits es started).stopped ≡ true
    → GaveUp limits (claims_sent limits es started)
poll-GaveUp limits es s stopped =
    subst
      (λ b.
        Recorded limits b (poll limits es started).failure_start (claims_sent limits es started))
      stopped (poll-Recorded limits es started [] s tt)
