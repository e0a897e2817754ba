-- ===== src/Server/Retention.antt =====
-- The cleaner: which jobs a round deletes, and how long the configured retention keeps them.
use executr.Prelude.{
  ℕ, ◌+◌, ◌*◌, ◌<◌, ◌⊎◌, inl, inr, Bool-cases, &&-left, lt→ltb, true, ℤ, pos, ◌≡◌, ◌∙◌, ap, refl,
  Bool, true, not, Option, none, some, arith, if◌then◌else◌, find-keep, to_int64-pos,
}
use executr.Models.{UuidNumber, Status, pending, running, completed, failed, cancelled}
use executr.Store.Row.{Job, Tables, Context, Result, ok, get, guarded_up}
use executr.Store.Jobs.{cleanup_old_jobs, is_old, is_terminal, delete_jobs}
use executr.Lifecycle.Tables.{IsValid, job_key}
use executr.Server.Workers.{retention_interval, cleanup}

abbrev pub without : (Job → Bool) → Option Job → Option Job
without w none = none
without w (some j) = if w j then none else some j

kept_row :
    (w : Job → Bool) (o : Option Job)
    → (elim o [ none ↦ none | some a ↦ if not (w a) then some a else none ]) ≡ without w o
kept_row w none = refl
kept_row w (some j) = ground arith

cleanup_row :
    (r : ℤ) (c : Context) (t : Tables) (k : UuidNumber)
    → IsValid t
    → c.up ≡ true
    → get k (cleanup_old_jobs r c t).0 ≡ without (is_old c.now r) (get k t)
unfolding cleanup_old_jobs
cleanup_row r c t k v u =
    let q : Tables × Result (Unit {0}) = (delete_jobs (is_old c.now r) t, ok tt) in
    ap (λ (p : Tables × Result (Unit {0})). get k p.0) (guarded_up c t q u)
    ∙ (find-keep job_key k (λ j. not (is_old c.now r j)) t.jobs v.keys
        ∙ kept_row (is_old c.now r) (get k t))

interval_of :
    (job_retention : ℕ)
    → job_retention * 3600000000 < 9223372036854775808
    → retention_interval (pos job_retention) ≡ pos (job_retention * 3600 * 1000000)
unfolding retention_interval
interval_of n h = to_int64-pos (n * 3600000000) h ∙ ap pos (omega arith)

-- Completed, failed or cancelled, and ended more than so many microseconds ago.
pub record HasEnded (now interval : ℕ) (j : Job) : Type 0 where
  pub status : (j.status ≡ completed) ⊎ ((j.status ≡ failed) ⊎ (j.status ≡ cancelled))
  pub end : (e : ℕ) × (j.completed_at ≡ some e) × (e + interval < now)

terminal_cases :
    (s : Status) → is_terminal s ≡ true → (s ≡ completed) ⊎ ((s ≡ failed) ⊎ (s ≡ cancelled))
terminal_cases completed h = inl refl
terminal_cases failed h = inr (inl refl)
terminal_cases cancelled h = inr (inr refl)
terminal_cases pending h = absurd (cc h)
terminal_cases running h = absurd (cc h)

terminal_of :
    (s : Status) → (s ≡ completed) ⊎ ((s ≡ failed) ⊎ (s ≡ cancelled)) → is_terminal s ≡ true
terminal_of s (inl e) = rw e refl
terminal_of s (inr (inl e)) = rw e refl
terminal_of s (inr (inr e)) = rw e refl

old-HasEnded :
    (now interval : ℕ) (j : Job) (o : Option ℕ)
    → j.completed_at ≡ o
    → is_old now (pos interval) j ≡ true
    → HasEnded now interval j
old-HasEnded now interval j none e h = absurd (ground (arith, e, h))
old-HasEnded now interval j (some l) e h = record {
  status = terminal_cases j.status (&&-left (is_terminal j.status) _ h);
  end = (l, e, ground (arith, e, h));
}

ended-old :
    (now interval : ℕ) (j : Job) → HasEnded now interval j → is_old now (pos interval) j ≡ true
ended-old now interval j s = rw (terminal_of j.status s.status, s.end.1) (lt→ltb _ _ s.end.2)

-- The row of an id before and after a round of the cleaner.
abbrev pub Cleaned : ℕ → ℕ → Option Job → Option Job → Type 0
Cleaned now interval none o = o ≡ none
Cleaned now interval (some j) o =
    (HasEnded now interval j × (o ≡ none)) ⊎ ((¬ HasEnded now interval j) × (o ≡ some j))

without-Cleaned :
    (now interval : ℕ) (o o' : Option Job)
    → o' ≡ without (is_old now (pos interval)) o
    → Cleaned now interval o o'
without-Cleaned now interval none o' h = h
without-Cleaned now interval (some j) o' h = elim (Bool-cases (is_old now (pos interval) j)) [
  | inl e ↦ inl (old-HasEnded now interval j j.completed_at refl e, rw e at h)
  | inr e ↦ inr (λ s. cc (ended-old now interval j s, e), rw e at h)
]

-- In tables that satisfy the invariant, a round of the cleaner that reaches the database deletes
-- exactly the completed, failed and cancelled jobs that ended more than 3600 seconds ago for every
-- second of the configured retention (which is below 2 ^ 63 microseconds in all), and leaves the
-- row of every other id as it is.
pub cleanup_lem :
    (job_retention : ℕ) (c : Context) (t : Tables) (k : UuidNumber)
    → IsValid t
    → c.up ≡ true
    → job_retention * 3600000000 < 9223372036854775808
    → Cleaned c.now
        (job_retention * 3600 * 1000000)
        (get k t)
        (get k (cleanup (pos job_retention) c t))
unfolding cleanup
cleanup_lem job_retention c t k v u h =
    without-Cleaned c.now (job_retention * 3600 * 1000000) (get k t) _ (
      cleanup_row (retention_interval (pos job_retention)) c t k v u
      ∙ ap (λ (r : ℤ). without (is_old c.now r) (get k t)) (interval_of job_retention h))
