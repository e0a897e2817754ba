-- ===== src/Utils/Downloads.antt =====
-- What the downloads of internal/utils/downloader.go leave, and when they come through.
use executr.Prelude.{
  Bytes, ℕ, ◌-◌, ◌≤◌, ◌<◌, ◌≡◌, ◌∙◌, refl, ap, true, false, Option, none, some, String, str_eq, ◌⊎◌,
  ◌≢◌, ltb, ltb→lt, if◌then◌else◌, arith, inl, inr, Bool-cases,
}
use mathlib.Core.Path.{subst}
use executr.Executor.Cache.{Disk}
use executr.Utils.Http.{
  response, RetryableHttpClient, Exchange, answered, do_with_context, should_retry,
}
use executr.Utils.Backoff.{Tries, do_with_context-Tries, outcome_of}
use executr.Utils.Downloader.{whole, Network, Fetched, body, fetch, Fault, mismatch, Host}

-- The i-th request is answered 200, and each before it is worth a retry whose wait is not cut short.
pub record Arrives (c : RetryableHttpClient) (n : Network) (i : ℕ) : Type 0 where
  pub created : n.created ≡ true
  pub allowed : i ≤ c.max_retries
  pub answer : n.answers i ≡ response 200
  pub before : (m : ℕ) → m < i → (should_retry (n.answers m) ≡ true) × (n.ends m ≡ false)

last_request :
    (c : RetryableHttpClient) (n : Network) (i last : ℕ)
    → Arrives c n i
    → Tries n.answers n.ends 0 c.max_retries last (do_with_context c n.answers n.ends)
    → (last ≡ i) × ((do_with_context c n.answers n.ends).outcome ≡ answered 200)
last_request c n i last a t = elim (Bool-cases (ltb last i)) [
  | inl sooner ↦
      let (again, going) = a.before last (ltb→lt last i sooner) in
      elim t.verdict [
        | inl (out, inl decisive) ↦ absurd (cc (again, decisive))
        | inl (out, inr used_up) ↦ absurd (omega (arith, used_up, ltb→lt last i sooner, a.allowed))
        | inr (out, again', stopped, left) ↦ absurd (cc (going, stopped))
      ]
  | inr not_sooner ↦ elim (Bool-cases (ltb i last)) [
    | inl later ↦
        let again : should_retry (n.answers i) ≡ true =
          (t.retried i (omega arith) (ltb→lt i last later)).0 in
        absurd (cc (subst (λ r. should_retry r ≡ true) a.answer again))
    | inr not_later ↦
        let it : last ≡ i = ground arith in
        let answer : n.answers last ≡ response 200 = ap n.answers it ∙ a.answer in
        elim t.verdict [
          | inl (out, why) ↦ (it, out ∙ ap outcome_of answer)
          | inr (out, again, stopped, left) ↦
              absurd (cc (subst (λ r. should_retry r ≡ true) answer again))
        ]
  ]
]

-- A download with retries ends with the body of the request that is answered 200.
pub fetch-Arrives :
    (c : RetryableHttpClient) (n : Network) (i : ℕ) → Arrives c n i → fetch c n ≡ body (n.bodies i)
unfolding fetch
fetch-Arrives c n i a =
    let e : Exchange = do_with_context c n.answers n.ends in
    let (last, t) = do_with_context-Tries c n.answers n.ends in
    let (at_i, ok) = last_request c n i last a t in
    let index : e.requests - 1 ≡ i = omega (arith, t.requests, at_i) in
    rw (a.created, ok, index) refl

module _ (hash : Bytes → String) (h : Host) (sha dest : String) where
  -- What a download of `f` makes of the files `d`.
  abbrev pub Saves : Fetched → Disk → Disk × Option Fault → Type 0
  Saves f d (d', none) =
      (b : Bytes) × (f ≡ body (whole b))
      × ((sha ≡ "") ⊎ (hash b ≡ sha))
      × ((p : String) → d' p ≡ (if str_eq p dest then some b else d p))
  Saves f d (d', some (mismatch expected got)) =
      (b : Bytes) × (f ≡ body (whole b))
      × (sha ≢ "")
      × (hash b ≢ sha)
      × (expected ≡ sha)
      × (got ≡ hash b)
      × ((p : String) → d' p ≡ (if str_eq p h.temp then some b else d p))
  Saves f d (d', some e) = (p : String) → d' p ≡ d p
