-- ===== src/Server/Retries.antt =====
-- A round of the retry worker: which failed jobs it puts back.
use executr.Prelude.{
  ℕ, zero, suc, ◌+◌, ◌*◌, ◌^◌, ◌≤◌, ◌<◌, ltb→lt, ℤ, pos, negsuc, ltb_ℤ, ◌≡◌, ◌⊎◌, ◌∙◌, refl, sym,
  Bool, true, false, not, Option, none, some, List, [], ◌∷◌, arith, All, any, keep, length, take,
  sort_by, IsSorted, IsOrder, Bool-cases, inl, inr, any-take, any-sort_by, count-sort_by,
  sort_by-IsSorted, lex_before-asym, lex_before-chain, &&-left, All-sort_by, All-imp, keep_passes,
  length-take-le,
}
use mathlib.Core.Path.{subst}
use executr.Models.{UuidNumber, Instant, pending, failed, foreground, background, best_effort}
use executr.Store.Row.{Job, Tables, Context, ok, has_id, get}
use executr.Store.Retry.{
  get_retriable_jobs, increment_job_retry, retried_job, is_retriable, is_due, retried_first,
  text_rank,
}
use executr.Lifecycle.Tables.{IsValid}
use executr.Server.Workers.{for_each, retry_failed_jobs}
use executr.Server.Rounds.{
  alone, AllUp, changed_by, unlisted, listed_once, may_retry, selected,
  increment_job_retry-IsRowStatement,
}

-- The rows that GetRetriableJobs returns.
abbrev pub retriable : Instant → Tables → List Job
retriable now t = take 10 (sort_by retried_first (keep (is_retriable now) t.jobs))

may_retry_of : (now : Instant) (j : Job) → is_retriable now j ≡ true → may_retry j ≡ true
may_retry_of now j h = &&-left (may_retry j) (is_due now j.retry_after) h

-- A row in the selection is there, and may be retried.
picked_row :
    (now : Instant) (t : Tables) (k : UuidNumber) (o : Option Job) (f : Job → Job)
    → IsValid t
    → get k t ≡ o
    → any (has_id k) (retriable now t) ≡ true
    → (j : Job) × (o ≡ some j) × (changed_by may_retry f o ≡ some (f j))
picked_row now t k o f v h a = by_row o h
  where
    kept : any (has_id k) (keep (is_retriable now) t.jobs) ≡ true
    kept =
        sym (any-sort_by retried_first (has_id k) (keep (is_retriable now) t.jobs))
        ∙ any-take (has_id k) 10 (sort_by retried_first (keep (is_retriable now) t.jobs)) a

    by_row :
        (o : Option Job)
        → get k t ≡ o
        → (j : Job) × (o ≡ some j) × (changed_by may_retry f o ≡ some (f j))
    by_row none h = absurd (cc (sym (selected (is_retriable now) t k none v h) ∙ kept))
    by_row (some j) h =
        let ready : is_retriable now j ≡ true =
          sym (selected (is_retriable now) t k (some j) v h) ∙ kept in
        (j, refl, rw (may_retry_of now j ready) refl)

-- The two ways in which a round leaves the row of an id.
abbrev pub Retried : List Job → (ℕ → Context) → Tables → Tables → UuidNumber → Type 0
Retried js cs t t' k =
    ((any (has_id k) js ≡ true)
      × (m : ℕ) × (j : Job) × (get k t ≡ some j)
      × (get k t'
          ≡ some (record j {
            retry_count = j.retry_count + 1;
            status = pending;
            retry_after = some ((cs m).now + 60 * 1000000 * 2 ^ j.retry_count);
            error_message = none;
            stdout = none;
            stderr = none;
            exit_code = none;
            started_at = none;
            completed_at = none;
            executor_id = none;
            last_heartbeat = none;
          })))
    ⊎ ((any (has_id k) js ≡ false) × (get k t' ≡ get k t))

-- What a selected job is: failed, below its budget, and due.
pub record IsDueRetry (now : Instant) (j : Job) : Type 0 where
  pub status : j.status ≡ failed
  pub budget : (n : ℕ) × (j.max_retries ≡ pos n) × (j.retry_count < n)
  pub due : (j.retry_after ≡ none) ⊎ ((r : Instant) × (j.retry_after ≡ some r) × (r < now))

retriable-IsDueRetry : (now : Instant) (j : Job) → is_retriable now j ≡ true → IsDueRetry now j
retriable-IsDueRetry now j h = record {
  status = ground (arith, h);
  budget = budget_of j.max_retries (ground (arith, h));
  due = due_of j.retry_after (ground (arith, h));
}
  where
    budget_of : (m : ℤ) → ltb_ℤ j.retry_count m ≡ true → (n : ℕ) × (m ≡ pos n) × (j.retry_count < n)
    budget_of (pos n) e = (n, refl, ltb→lt _ _ e)
    budget_of (negsuc n) e = absurd (cc e)

    due_of :
        (o : Option Instant)
        → is_due now o ≡ true
        → (o ≡ none) ⊎ ((r : Instant) × (o ≡ some r) × (r < now))
    due_of none e = inl refl
    due_of (some r) e = inr (r, refl, ltb→lt _ _ e)

All-take {κ} : (P : Job → Type κ) (n : ℕ) (js : List Job) → All P js → All P (take n js)
All-take P zero js h = tt
All-take P (suc n) [] h = tt
All-take P (suc n) (j ∷ js) h = (h.0, All-take P n js h.1)

retriable_due : (now : Instant) (t : Tables) → All (IsDueRetry now) (retriable now t)
retriable_due now t =
    All-take (IsDueRetry now) 10 (sort_by retried_first (keep (is_retriable now) t.jobs)) (
      All-sort_by retried_first (IsDueRetry now) (keep (is_retriable now) t.jobs) (
        All-imp (λ j. is_retriable now j ≡ true) (IsDueRetry now) (keep (is_retriable now) t.jobs)
          (retriable-IsDueRetry now) (keep_passes (is_retriable now) t.jobs)))

retry_row :
    (c : Context) (cs : ℕ → Context) (t : Tables) (k : UuidNumber)
    → IsValid t
    → AllUp cs
    → Retried
        (retriable c.now t)
        cs
        t
        (for_each increment_job_retry cs alone 0 (retriable c.now t) t)
        k
retry_row c cs t k v up = elim (Bool-cases (any (has_id k) (retriable c.now t))) [
  | inr e ↦ inr (
    e,
    unlisted increment_job_retry may_retry (λ c. retried_job c.now)
        increment_job_retry-IsRowStatement cs up 0 (retriable c.now t) t k e,
  )
  | inl e ↦
      let (m, it) =
        listed_once increment_job_retry may_retry (λ c. retried_job c.now)
          increment_job_retry-IsRowStatement cs up 0 (retriable c.now t) t k e in
      let (j, there, changed) = picked_row c.now t k (get k t) (retried_job (cs m).now) v refl e in
      inl (e, m, j, there, it ∙ changed)
]

-- In tables that satisfy the invariant, a round of the retry worker that reaches the database and
-- is not interleaved puts back exactly the jobs that GetRetriableJobs selects, of which there are at
-- most 10, all failed, with retries left, and due: each becomes pending with its result cleared, its
-- retry count one higher, and a time of the next retry that lies 1 minute times 2 to the power of
-- the old count after the statement. Every other row stays as it is.
pub retry_failed_jobs_lem :
    (c : Context) (cs : ℕ → Context) (t : Tables) (k : UuidNumber)
    → IsValid t
    → c.up ≡ true
    → AllUp cs
    → (js : List Job) × (get_retriable_jobs c t ≡ ok js)
      × All (IsDueRetry c.now) js
      × (length js ≤ 10)
      × Retried js cs t (retry_failed_jobs c cs alone t) k
unfolding retry_failed_jobs get_retriable_jobs
retry_failed_jobs_lem c cs t k v u up = rw u (
  retriable c.now t,
  refl,
  retriable_due c.now t,
  length-take-le 10 (sort_by retried_first (keep (is_retriable c.now) t.jobs)),
  retry_row c cs t k v up,
)

abbrev pub is_foreground : Job → Bool
is_foreground j = elim j.priority [ foreground ↦ true | background ↦ false | best_effort ↦ false ]

abbrev later_kind : Job → Bool
later_kind j = not (is_foreground j)

retried_first-IsOrder : IsOrder retried_first
retried_first-IsOrder = record {
  asym = λ a b.
      lex_before-asym (text_rank a.priority) a.created_at (text_rank b.priority) b.created_at;
  chain = λ a b c.
      lex_before-chain (text_rank a.priority) a.created_at (text_rank b.priority) b.created_at
        (text_rank c.priority) c.created_at;
}

-- Behind a foreground job stand only foreground jobs.
All-foreground :
    (x : Job) (xs : List Job)
    → is_foreground x ≡ true
    → All (λ y. retried_first y x ≡ false) xs
    → length (keep later_kind xs) ≡ 0
unfolding keep
All-foreground x [] f h = refl
All-foreground x (y ∷ ys) f h = ground (arith, All-foreground x ys f h.1, h.0)

first_others :
    (n : ℕ) (xs : List Job)
    → IsSorted retried_first xs
    → n ≤ length (keep later_kind xs)
    → All (λ j. is_foreground j ≡ false) (take n xs)
unfolding keep
first_others zero xs s h = tt
first_others (suc n) [] s h = tt
first_others (suc n) (x ∷ xs) s h = elim (Bool-cases (is_foreground x)) [
  | inr e ↦ (e, first_others n xs s.1 (ground arith))
  | inl e ↦ absurd (ground (arith, All-foreground x xs e s.0))
]

-- While ten or more background or best-effort jobs are retriable, a round of the retry worker
-- selects no foreground job: the query orders by the text of the priority, in which "background"
-- and "best_effort" come before "foreground".
pub foreground_waits :
    (c : Context) (t : Tables) (js : List Job)
    → get_retriable_jobs c t ≡ ok js
    → 10 ≤ length (keep later_kind (keep (is_retriable c.now) t.jobs))
    → All (λ j. is_foreground j ≡ false) js
unfolding get_retriable_jobs
foreground_waits c t js e h = elim (Bool-cases c.up) [
  | inr down ↦ absurd (cc (rw down at e))
  | inl up ↦
      let some_js : List Job = keep (is_retriable c.now) t.jobs in
      let same : retriable c.now t ≡ js = cc (rw up at e) in
      subst (All (λ j. is_foreground j ≡ false)) same (
        first_others 10 (sort_by retried_first some_js)
          (sort_by-IsSorted retried_first retried_first-IsOrder some_js)
          (omega (arith, count-sort_by retried_first later_kind some_js)))
]
