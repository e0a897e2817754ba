-- ===== src/Lifecycle/Open.antt =====
-- The attempts: UpdateJobAttempt is called nowhere in server.go, so none is ever closed.
use executr.Prelude.{
  ℤ, pos, String, ◌≡◌, refl, Option, none, some, List, [], ◌∷◌, ◌==◌, All, any, Bool-cases, inl,
  inr, All-keep,
}
use executr.Models.{Priority}
use executr.Store.Row.{
  Job, JobAttempt, AttemptStatus, Tables, Context, Result, guarded, no_tables, has_id,
}
use executr.Store.Jobs
use executr.Store.Jobs.{insert_with, claim_row, next_job, check_priority, CreateJobParams, is_old}
use executr.Store.Retry
use executr.Store.Attempts
use executr.Store.Attempts.{RecordJobAttemptParams}
use executr.Store.Statement.{
  Statement, exec, run, create_job, create_job_with_retries, claim_next_job as claim,
  record_job_attempt, update_heartbeat, complete_job, fail_job, cancel_job, reset_stale_job,
  increment_job_retry, cleanup_old_jobs,
}

abbrev pub IsOpen : JobAttempt → Type 0
IsOpen a = (a.ended_at ≡ none) × (a.status ≡ AttemptStatus.running)

abbrev pub AllOpen : Tables → Type 0
AllOpen t = All IsOpen t.attempts

guarded-AllOpen :
    {A : Type 0} (c : Context) (t : Tables) (q : Tables × Result A)
    → AllOpen t
    → AllOpen q.0
    → AllOpen (guarded c t q).0
guarded-AllOpen c t q h k = elim (Bool-cases c.up) [ inl u ↦ rw u k | inr u ↦ rw u h ]

insert_with-AllOpen :
    (o : Option Priority) (p : CreateJobParams) (m : ℤ) (c : Context) (t : Tables)
    → AllOpen t
    → AllOpen (insert_with o p m c t).0
insert_with-AllOpen none p m c t h = h
insert_with-AllOpen (some q) p m c t h = elim (Bool-cases (any (has_id c.fresh) t.jobs)) [
  | inl e ↦ rw e h
  | inr e ↦ rw e h
]

claim_row-AllOpen :
    (o : Option Job) (e : String) (c : Context) (t : Tables)
    → AllOpen t
    → AllOpen (claim_row o e c t).0
claim_row-AllOpen none e c t h = h
claim_row-AllOpen (some j) e c t h = h

record-AllOpen :
    (p : RecordJobAttemptParams) (c : Context) (t : Tables)
    → AllOpen t
    → AllOpen (Attempts.record_job_attempt p c t).0
unfolding Attempts.record_job_attempt
record-AllOpen p c t h =
    guarded-AllOpen c t _ h
      (elim (Bool-cases (any (λ (a : JobAttempt). a.id == c.fresh) t.attempts)) [
        | inl taken ↦ rw taken h
        | inr new ↦ elim (Bool-cases (any (has_id p.job_id) t.jobs)) [
          | inl there ↦ rw (new, there) ((refl, refl), h)
          | inr gone ↦ rw (new, gone) h
        ]
      ])

exec-AllOpen : (s : Statement) (c : Context) (t : Tables) → AllOpen t → AllOpen (exec s c t)
unfolding exec
exec-AllOpen (create_job p) c t h =
    unfold Jobs.create_job in
    guarded-AllOpen c t _ h (insert_with-AllOpen (check_priority p.priority) p (pos 0) c t h)
exec-AllOpen (create_job_with_retries p) c t h =
    unfold Retry.create_job_with_retries in
    guarded-AllOpen c t _ h
      (insert_with-AllOpen (check_priority p.job.priority) p.job p.max_retries c t h)
exec-AllOpen (claim e) c t h =
    unfold Jobs.claim_next_job in
    guarded-AllOpen c t _ h (claim_row-AllOpen (next_job c.locked t.jobs) e c t h)
exec-AllOpen (record_job_attempt p) c t h = record-AllOpen p c t h
exec-AllOpen (update_heartbeat u e) c t h =
    unfold Jobs.update_heartbeat in guarded-AllOpen c t _ h h
exec-AllOpen (complete_job p) c t h = unfold Jobs.complete_job in guarded-AllOpen c t _ h h
exec-AllOpen (fail_job p) c t h = unfold Jobs.fail_job in guarded-AllOpen c t _ h h
exec-AllOpen (cancel_job u) c t h = unfold Jobs.cancel_job in guarded-AllOpen c t _ h h
exec-AllOpen (reset_stale_job u) c t h = unfold Jobs.reset_stale_job in guarded-AllOpen c t _ h h
exec-AllOpen (increment_job_retry u) c t h =
    unfold Retry.increment_job_retry in guarded-AllOpen c t _ h h
exec-AllOpen (cleanup_old_jobs r) c t h =
    unfold Jobs.cleanup_old_jobs in guarded-AllOpen c t _ h (All-keep IsOpen _ t.attempts h)

run-AllOpen : (ss : List (Statement × Context)) (t : Tables) → AllOpen t → AllOpen (run ss t)
unfolding run
run-AllOpen [] t h = h
run-AllOpen ((s, c) ∷ ss) t h = run-AllOpen ss (exec s c t) (exec-AllOpen s c t h)

-- After any run of the server's statements from the empty tables every recorded attempt still says
-- that it is running and has no end, also those of jobs long completed, failed or reset.
pub attempts_open : (ss : List (Statement × Context)) → AllOpen (run ss no_tables)
attempts_open ss = run-AllOpen ss no_tables tt
