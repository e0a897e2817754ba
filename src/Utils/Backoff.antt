-- ===== src/Utils/Backoff.antt =====
-- What the retries of internal/utils/http.go promise: how many requests, which answer, which waits.
use executr.Prelude.{
  ℕ, zero, suc, min, ◌*◌, ◌∙◌, sym, ◌+◌, ◌≤◌, ◌<◌, ◌≡◌, ◌⊎◌, ap, refl, Bool, true, false, List, [],
  ◌∷◌, arith, length, All, take, Bool-cases, inl, inr,
}
use native.Mathlib.Decide.{ℕ_discrete}
use executr.Utils.Http.{
  Answer, Outcome, Exchange, RetryableHttpClient, response, transport_error, answered, gave_up,
  context_done, should_retry, finish, after_wait, next_delay, attempts_from, do_with_context,
}

-- The outcome that an answer has when it is the last.
abbrev pub outcome_of : Answer → Outcome
outcome_of (response status) = answered status
outcome_of transport_error = gave_up

module _ (answers : ℕ → Answer) (ends : ℕ → Bool) where
  -- The requests are numbered from `i` to `last`, of at most `limit`: each before the last had an
  -- answer worth a retry and a wait that was not cut short. The last had an answer that is not
  -- worth a retry, or was the last allowed, and decides; or its wait was cut short.
  pub record Tries (i limit last : ℕ) (e : Exchange) : Type 0 where
    pub requests : i + e.requests ≡ suc last
    pub from : i ≤ last
    pub allowed : last ≤ limit
    pub retried : (m : ℕ) → i ≤ m → m < last → (should_retry (answers m) ≡ true) × (ends m ≡ false)
    pub verdict :
        ((e.outcome ≡ outcome_of (answers last))
          × ((should_retry (answers last) ≡ false) ⊎ (last ≡ limit)))
        ⊎ ((e.outcome ≡ context_done)
            × (should_retry (answers last) ≡ true)
            × (ends last ≡ true)
            × (last < limit))

  finish_outcome : (a : Answer) → (finish a).outcome ≡ outcome_of a
  finish_outcome (response s) = refl
  finish_outcome transport_error = refl

  finish_requests : (a : Answer) → (finish a).requests ≡ 1
  finish_requests (response s) = refl
  finish_requests transport_error = refl

  Tries-finish :
      (i limit : ℕ)
      → i ≤ limit
      → (should_retry (answers i) ≡ false) ⊎ (i ≡ limit)
      → Tries i limit i (finish (answers i))
  Tries-finish i limit h s = record {
    requests = omega (arith, finish_requests (answers i));
    from = omega arith;
    allowed = h;
    retried = λ m p q. absurd (omega arith);
    verdict = inl (finish_outcome (answers i), s);
  }

  Tries-retry :
      (i limit last delay : ℕ) (e : Exchange)
      → should_retry (answers i) ≡ true
      → ends i ≡ false
      → Tries (suc i) limit last e
      → Tries i limit last (after_wait delay e)
  Tries-retry i limit last delay e r d t = record {
    requests = omega (arith, t.requests);
    from = omega (arith, t.from);
    allowed = t.allowed;
    retried = λ m p q. elim (ℕ_discrete m i) [
      | yes same ↦ rw same (r, d)
      | no apart ↦ t.retried m (omega arith) q
    ];
    verdict = t.verdict;
  }

  attempts_from-Tries :
      (max_delay left i delay limit : ℕ)
      → i + left ≡ limit
      → (last : ℕ) × Tries i limit last (attempts_from answers ends max_delay left i delay)
  unfolding attempts_from
  attempts_from-Tries max_delay zero i delay limit h =
      (i, Tries-finish i limit (omega arith) (inr (omega arith)))
  attempts_from-Tries max_delay (suc left) i delay limit h =
      let next : ℕ = next_delay max_delay delay in
      let (last, ih) = attempts_from-Tries max_delay left (suc i) next limit (omega arith) in
      elim (Bool-cases (should_retry (answers i))) [
        | inr e ↦ (i, rw e (Tries-finish i limit (omega arith) (inl e)))
        | inl e ↦ elim (Bool-cases (ends i)) [
          | inr d ↦ (last, rw (e, d) (Tries-retry i limit last delay _ e d ih))
          | inl d ↦ (
            i,
            rw (e, d)
                (record {
                  requests = omega arith;
                  from = omega arith;
                  allowed = omega arith;
                  retried = λ m p q. absurd (omega arith);
                  verdict = inr (refl, e, d, omega arith);
                }),
          )
        ]
      ]

-- A call sends requests 0 to `last`, with `last` at most the number of retries. Each but the last
-- failed, or was answered 429 or 500 and more, and its wait was not cut short. The call ends
-- with the last answer, which is of another kind or used up the retries, or with the context's
-- error, when the last wait was cut short. So it always ends.
pub do_with_context-Tries :
    (c : RetryableHttpClient) (answers : ℕ → Answer) (ends : ℕ → Bool)
    → (last : ℕ) × Tries answers ends 0 c.max_retries last (do_with_context c answers ends)
unfolding do_with_context
do_with_context-Tries c answers ends =
    attempts_from-Tries answers ends c.max_delay c.max_retries 0 c.retry_delay c.max_retries
      (omega arith)

-- The waits of `n` retries: the first delay, doubled each time up to the maximum.
unfoldable pub schedule : ℕ → ℕ → ℕ → List ℕ
schedule max_delay zero delay = []
schedule max_delay (suc n) delay = delay ∷ schedule max_delay n (next_delay max_delay delay)

-- The waits are the first of the schedule, and each is at most the maximum.
pub record Waits (max_delay left delay : ℕ) (waits : List ℕ) : Type 0 where
  pub count : length waits ≤ left
  pub bounded : All (λ w. w ≤ max_delay) waits
  pub scheduled : waits ≡ take (length waits) (schedule max_delay left delay)

no_waits : (max_delay left delay : ℕ) (a : Answer) → Waits max_delay left delay (finish a).waits
no_waits max_delay left delay (response s) = record {
  count = omega arith;
  bounded = tt;
  scheduled = refl;
}
no_waits max_delay left delay transport_error = record {
  count = omega arith;
  bounded = tt;
  scheduled = refl;
}

attempts_from-Waits :
    (answers : ℕ → Answer) (ends : ℕ → Bool) (max_delay left i delay : ℕ)
    → delay ≤ max_delay
    → Waits max_delay left delay (attempts_from answers ends max_delay left i delay).waits
unfolding attempts_from schedule
attempts_from-Waits answers ends max_delay zero i delay h = no_waits max_delay 0 delay (answers i)
attempts_from-Waits answers ends max_delay (suc left) i delay h =
    let ih =
      attempts_from-Waits answers ends max_delay left (suc i) (next_delay max_delay delay)
        (ground arith) in
    elim (Bool-cases (should_retry (answers i))) [
      | inr e ↦ rw e (no_waits max_delay (suc left) delay (answers i))
      | inl e ↦ elim (Bool-cases (ends i)) [
        | inr d ↦
            rw (e, d)
              (record {
                count = omega (arith, ih.count);
                bounded = (h, ih.bounded);
                scheduled = ap (◌∷◌ delay) ih.scheduled;
              })
        | inl d ↦ rw (e, d) (record { count = omega arith; bounded = (h, tt); scheduled = refl })
      ]
    ]

-- The waits of `n` retries in numbers: each at most the maximum, of delays that double.
unfoldable pub doublings : ℕ → ℕ → ℕ → List ℕ
doublings max_delay zero delay = []
doublings max_delay (suc n) delay = min delay max_delay ∷ doublings max_delay n (delay * 2)

next_delay-min :
    (max_delay delay : ℕ) → next_delay max_delay (min delay max_delay) ≡ min (delay * 2) max_delay
next_delay-min max_delay delay = ground arith

schedule-doublings :
    (max_delay n delay : ℕ)
    → schedule max_delay n (min delay max_delay) ≡ doublings max_delay n delay
unfolding schedule doublings
schedule-doublings max_delay zero delay = refl
schedule-doublings max_delay (suc n) delay = ap (◌∷◌ (min delay max_delay)) (
    ap (schedule max_delay n) (next_delay-min max_delay delay)
    ∙ schedule-doublings max_delay n (delay * 2))

-- The waits of a call are at most as many as the retries, none is longer than the maximal delay,
-- and they are the first of the configured delay, its double, the double of that, and so on, each
-- cut to the maximum, where the configured delay is not above the maximum.
pub do_with_context-Waits :
    (c : RetryableHttpClient) (answers : ℕ → Answer) (ends : ℕ → Bool)
    → c.retry_delay ≤ c.max_delay
    → let waits = (do_with_context c answers ends).waits in
      (length waits ≤ c.max_retries)
      × All (λ w. w ≤ c.max_delay) waits
      × (waits ≡ take (length waits) (doublings c.max_delay c.max_retries c.retry_delay))
unfolding do_with_context
do_with_context-Waits c answers ends h =
    let waits : List ℕ = (do_with_context c answers ends).waits in
    let w = attempts_from-Waits answers ends c.max_delay c.max_retries 0 c.retry_delay h in
    let first : min c.retry_delay c.max_delay ≡ c.retry_delay = ground arith in
    (
      w.count,
      w.bounded,
      w.scheduled
          ∙ ap (take (length waits)) (
              ap (schedule c.max_delay c.max_retries) (sym first)
              ∙ schedule-doublings c.max_delay c.max_retries c.retry_delay),
    )
