-- ===== src/Utils/Http.antt =====
-- `RetryableHTTPClient` of internal/utils/http.go. What the network answers to the i-th request,
-- and whether the context ends during the i-th wait, are arguments. Durations are nanoseconds.
use executr.Prelude.{
  ℕ, zero, suc, ◌*◌, ltb, leb, ◌==◌, Bool, true, ◌||◌, List, [], ◌∷◌, if◌then◌else◌,
}

-- What `client.Do` returns: a response with its status, or an error.
pub data Answer : Type 0 where
  response : ℕ → Answer
  transport_error : Answer

-- `request_timeout` is the timeout of the http.Client within, which bounds one request.
pub record RetryableHttpClient : Type 0 where
  pub request_timeout : ℕ
  pub max_retries : ℕ
  pub retry_delay : ℕ
  pub max_delay : ℕ

abbrev pub second : ℕ
second = 1000000000

abbrev pub new_retryable_http_client : RetryableHttpClient
new_retryable_http_client = record {
  request_timeout = 30 * second;
  max_retries = 3;
  retry_delay = 1 * second;
  max_delay = 10 * second;
}

abbrev pub set_max_retries : ℕ → RetryableHttpClient → RetryableHttpClient
set_max_retries n c = record c { max_retries = n }

abbrev pub set_timeout : ℕ → RetryableHttpClient → RetryableHttpClient
set_timeout n c = record c { request_timeout = n }

abbrev pub should_retry : Answer → Bool
should_retry transport_error = true
should_retry (response status) = leb 500 status || status == 429

pub data Outcome : Type 0 where
  answered : ℕ → Outcome
  gave_up : Outcome
  context_done : Outcome

-- What a call did: its outcome, the number of requests sent, and the waits between them.
pub record Exchange : Type 0 where
  pub outcome : Outcome
  pub requests : ℕ
  pub waits : List ℕ

abbrev pub finish : Answer → Exchange
finish (response status) = record { outcome = answered status; requests = 1; waits = [] }
finish transport_error = record { outcome = gave_up; requests = 1; waits = [] }

abbrev pub after_wait : ℕ → Exchange → Exchange
after_wait delay e = record e { requests = suc e.requests; waits = delay ∷ e.waits }

-- `delay = delay * 2; if delay > c.maxDelay { delay = c.maxDelay }`
abbrev pub next_delay : ℕ → ℕ → ℕ
next_delay max_delay delay = if ltb max_delay (delay * 2) then max_delay else delay * 2

module _ (answers : ℕ → Answer) (ends : ℕ → Bool) (max_delay : ℕ) where
  -- The loop from attempt `i` on, with `left` retries left.
  unfoldable pub attempts_from : ℕ → ℕ → ℕ → Exchange
  attempts_from zero i delay = finish (answers i)
  attempts_from (suc left) i delay =
      let rest = attempts_from left (suc i) (next_delay max_delay delay) in
      if should_retry (answers i)
      then (if ends i
          then record { outcome = context_done; requests = 1; waits = delay ∷ [] }
          else after_wait delay rest)
      else finish (answers i)

unfoldable pub do_with_context : RetryableHttpClient → (ℕ → Answer) → (ℕ → Bool) → Exchange
do_with_context c answers ends =
    attempts_from answers ends c.max_delay c.max_retries 0 c.retry_delay
