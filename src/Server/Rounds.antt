-- ===== src/Server/Rounds.antt =====
-- A whole round of a worker with nothing in between: which rows it changes, and how.
use executr.Prelude.{
  ℕ, suc, ◌+◌, ◌*◌, ◌<◌, ◌⊎◌, ◌≡◌, ◌∙◌, ap, refl, sym, Bool, true, false, ◌&&◌, Option, none, some,
  List, [], ◌∷◌, ◌==◌, arith, any, keep, if◌then◌else◌, Bool-cases, inl, inr, ltb_ℤ, find-keep,
  any-find, any_of_find-none, &&-left, find-passes,
}
use mathlib.Core.Option
use executr.Models.{UuidNumber, Instant, pending, running}
use executr.Store.Row.{Job, Tables, Context, Result, has_id, get}
use executr.Store.Jobs.{find_stale_jobs, reset_stale_job, reset_job, is_stale, is_running}
use executr.Store.Retry.{increment_job_retry, retried_job, is_failed}
use executr.Store.Statement.{run}
use executr.Lifecycle.Tables.{IsValid, job_key}
use executr.Lifecycle.Updates.{get-exec_up}
use executr.Server.Workers.{Others, for_each, check_stale_jobs}

-- Nothing happens between the statements of a round.
abbrev pub alone : Others
alone n = []

abbrev pub AllUp : (ℕ → Context) → Type 0
AllUp cs = (n : ℕ) → (cs n).up ≡ true

-- A row that the guard does not pass, or no row.
abbrev pub Idle : (Job → Bool) → Option Job → Type 0
Idle w none = Unit
Idle w (some j) = w j ≡ false

-- A row as one statement of a round leaves it.
abbrev pub changed_by : (Job → Bool) → (Job → Job) → Option Job → Option Job
changed_by w f none = none
changed_by w f (some j) = some (if w j then f j else j)

-- One statement per row of a list, each changing the row of its id by `g` where `w` allows it.
pub record IsRowStatement (statement : UuidNumber → Context → Tables → Tables × Result (Unit {0}))
    (w : Job → Bool) (g : Context → Job → Job) : Type 0 where
  pub effect :
      (i : UuidNumber) (c : Context) (t : Tables) (k : UuidNumber)
      → c.up ≡ true
      → get k (statement i c t).0 ≡ (if i == k then changed_by w (g c) (get k t) else get k t)
  pub spent : (c : Context) (j : Job) → w (g c j) ≡ false

module _ (statement : UuidNumber → Context → Tables → Tables × Result (Unit {0})) (w : Job → Bool)
    (g : Context → Job → Job) (s : IsRowStatement statement w g) (cs : ℕ → Context)
    (up : AllUp cs) where
  changed_by-Idle : (f : Job → Job) (o : Option Job) → Idle w o → changed_by w f o ≡ o
  changed_by-Idle f none h = refl
  changed_by-Idle f (some j) h = rw h

  Idle-after : (c : Context) (o : Option Job) → Idle w (changed_by w (g c) o)
  Idle-after c none = tt
  Idle-after c (some j) = elim (Bool-cases (w j)) [ inl e ↦ rw e (s.spent c j) | inr e ↦ rw e e ]

  step-Idle :
      (i k : UuidNumber) (c : Context) (t : Tables)
      → c.up ≡ true
      → Idle w (get k t)
      → get k (statement i c t).0 ≡ get k t
  step-Idle i k c t u h = s.effect i c t k u ∙ elim (Bool-cases (i == k)) [
    | inl e ↦ rw e (changed_by-Idle (g c) (get k t) h)
    | inr e ↦ rw e
  ]

  -- A row that the guard does not pass stays as it is.
  stable :
      (n : ℕ) (js : List Job) (t : Tables) (k : UuidNumber)
      → Idle w (get k t)
      → get k (for_each statement cs alone n js t) ≡ get k t
  unfolding for_each run
  stable n [] t k h = refl
  stable n (j ∷ js) t k h =
      let one : get k (statement j.id (cs n) t).0 ≡ get k t = step-Idle j.id k (cs n) t (up n) h in
      stable (suc n) js (statement j.id (cs n) t).0 k (rw one h) ∙ one

  -- So does a row that is not in the list.
  pub unlisted :
      (n : ℕ) (js : List Job) (t : Tables) (k : UuidNumber)
      → any (has_id k) js ≡ false
      → get k (for_each statement cs alone n js t) ≡ get k t
  unfolding for_each run any
  unlisted n [] t k h = refl
  unlisted n (j ∷ js) t k h =
      let apart : (j.id == k) ≡ false = ground arith in
      let rest : any (has_id k) js ≡ false = ground arith in
      unlisted (suc n) js (statement j.id (cs n) t).0 k rest
      ∙ (s.effect j.id (cs n) t k (up n) ∙ rw apart)

  -- A row in the list is changed once, by one of the statements.
  pub listed_once :
      (n : ℕ) (js : List Job) (t : Tables) (k : UuidNumber)
      → any (has_id k) js ≡ true
      → (m : ℕ) × (get k (for_each statement cs alone n js t) ≡ changed_by w (g (cs m)) (get k t))
  unfolding for_each run any
  listed_once n [] t k h = absurd (cc h)
  listed_once n (j ∷ js) t k h = elim (Bool-cases (j.id == k)) [
    | inl e ↦
        let now : get k (statement j.id (cs n) t).0 ≡ changed_by w (g (cs n)) (get k t) =
          s.effect j.id (cs n) t k (up n) ∙ rw e in
        (
          n,
          stable (suc n) js (statement j.id (cs n) t).0 k (rw now (Idle-after (cs n) (get k t)))
              ∙ now,
        )
    | inr e ↦
        let (m, later) = listed_once (suc n) js (statement j.id (cs n) t).0 k (ground arith) in
        (m, later ∙ ap (changed_by w (g (cs m))) (s.effect j.id (cs n) t k (up n) ∙ rw e))
  ]

-- A statement by Exec, as a change of the row of its id.
row_effect :
    (w : Job → Bool) (f : Job → Job) (i k : UuidNumber) (o : Option Job)
    → ((x : Job) → o ≡ some x → has_id k x ≡ true)
    → Option.map (λ j. if has_id i j && w j then f j else j) o
      ≡ (if i == k then changed_by w f o else o)
row_effect w f i k none h = elim (Bool-cases (i == k)) [ inl e ↦ rw e | inr e ↦ rw e ]
row_effect w f i k (some x) h = ground (arith, h x refl)

reset_stale_job-IsRowStatement :
    IsRowStatement reset_stale_job (λ j. is_running j.status) (λ c. reset_job)
unfolding reset_stale_job
reset_stale_job-IsRowStatement = record {
  effect = λ i c t k u.
      get-exec_up i (λ j. is_running j.status) reset_job (λ x. refl) t c k u
      ∙ (row_effect (λ j. is_running j.status) reset_job i k (get k t)
          (λ x. find-passes (has_id k) t.jobs x));
  spent = λ c j. refl;
}

abbrev pub may_retry : Job → Bool
may_retry j = is_failed j.status && ltb_ℤ j.retry_count j.max_retries

pub increment_job_retry-IsRowStatement :
    IsRowStatement increment_job_retry may_retry (λ c. retried_job c.now)
unfolding increment_job_retry
increment_job_retry-IsRowStatement = record {
  effect = λ i c t k u.
      get-exec_up i may_retry (retried_job c.now) (λ x. refl) t c k u
      ∙ (row_effect may_retry (retried_job c.now) i k (get k t)
          (λ x. find-passes (has_id k) t.jobs x));
  spent = λ c j. refl;
}

-- Whether a row is in the selection of a table by a test.
pub selected :
    (p : Job → Bool) (t : Tables) (k : UuidNumber) (o : Option Job)
    → IsValid t
    → get k t ≡ o
    → any (has_id k) (keep p t.jobs) ≡ elim o [ none ↦ false | some j ↦ p j ]
selected p t k none v h =
    any_of_find-none (has_id k) (keep p t.jobs) (find-keep job_key k p t.jobs v.keys ∙ rw h)
selected p t k (some j) v h = elim (Bool-cases (p j)) [
  | inl e ↦
      any-find (has_id k) (keep p t.jobs) j (find-keep job_key k p t.jobs v.keys ∙ rw (h, e))
      ∙ sym e
  | inr e ↦
      any_of_find-none (has_id k) (keep p t.jobs) (find-keep job_key k p t.jobs v.keys ∙ rw (h, e))
      ∙ sym e
]

abbrev pub revived : Instant → Option Job → Option Job
revived now none = none
revived now (some j) = some (if is_stale now j then reset_job j else j)

check_row :
    (c : Context) (cs : ℕ → Context) (t : Tables) (k : UuidNumber) (o : Option Job)
    → IsValid t
    → AllUp cs
    → get k t ≡ o
    → get k (for_each reset_stale_job cs alone 0 (keep (is_stale c.now) t.jobs) t) ≡ revived c.now o
check_row c cs t k none v up h =
    unlisted reset_stale_job (λ j. is_running j.status) (λ c. reset_job)
      reset_stale_job-IsRowStatement cs up 0 (keep (is_stale c.now) t.jobs) t k
      (selected (is_stale c.now) t k none v h)
    ∙ h
check_row c cs t k (some j) v up h = elim (Bool-cases (is_stale c.now j)) [
  | inr e ↦
      unlisted reset_stale_job (λ j. is_running j.status) (λ c. reset_job)
        reset_stale_job-IsRowStatement cs up 0 (keep (is_stale c.now) t.jobs) t k
        (selected (is_stale c.now) t k (some j) v h ∙ e)
      ∙ (h ∙ rw e)
  | inl e ↦
      let (m, it) =
        listed_once reset_stale_job (λ j. is_running j.status) (λ c. reset_job)
          reset_stale_job-IsRowStatement cs up 0 (keep (is_stale c.now) t.jobs) t k
          (selected (is_stale c.now) t k (some j) v h ∙ e) in
      it ∙ (rw (h, e, &&-left (is_running j.status) _ e))
]

-- Running, and last heard of more than 15 seconds (of microseconds) ago.
pub record IsSilent (now : Instant) (j : Job) : Type 0 where
  pub status : j.status ≡ running
  pub last : (h : Instant) × (j.last_heartbeat ≡ some h) × (h + 15 * 1000000 < now)

stale-IsSilent :
    (now : Instant) (j : Job) (o : Option Instant)
    → j.last_heartbeat ≡ o
    → is_stale now j ≡ true
    → IsSilent now j
stale-IsSilent now j none e h = absurd (ground (arith, e, h))
stale-IsSilent now j (some l) e h = record {
  status = ground (arith, e, h);
  last = (l, e, ground (arith, e, h));
}

silent-stale : (now : Instant) (j : Job) → IsSilent now j → is_stale now j ≡ true
silent-stale now j s = ground (arith, s.status, s.last.1, s.last.2)

-- The row of an id before and after a round of the monitor.
abbrev pub Revived : Instant → Option Job → Option Job → Type 0
Revived now none o = o ≡ none
Revived now (some j) o =
    (IsSilent now j
      × (o
          ≡ some (record j {
            status = pending;
            executor_id = none;
            started_at = none;
            last_heartbeat = none;
          })))
    ⊎ ((¬ IsSilent now j) × (o ≡ some j))

revived-Revived : (now : Instant) (o o' : Option Job) → o' ≡ revived now o → Revived now o o'
revived-Revived now none o' h = h
revived-Revived now (some j) o' h = elim (Bool-cases (is_stale now j)) [
  | inl e ↦ inl (stale-IsSilent now j j.last_heartbeat refl e, rw e at h)
  | inr e ↦ inr (λ s. cc (silent-stale now j s, e), rw e at h)
]

-- In tables that satisfy the invariant, a round of the heartbeat monitor that reaches the database
-- and is not interleaved puts back, as pending, exactly the jobs that are running and were last
-- heard of more than 15 seconds before, and leaves every other row as it is.
pub check_stale_jobs_lem :
    (c : Context) (cs : ℕ → Context) (t : Tables) (k : UuidNumber)
    → IsValid t
    → c.up ≡ true
    → AllUp cs
    → Revived c.now (get k t) (get k (check_stale_jobs c cs alone t))
unfolding check_stale_jobs find_stale_jobs
check_stale_jobs_lem c cs t k v u up =
    rw u (revived-Revived c.now (get k t) _ (check_row c cs t k (get k t) v up refl))
