-- ===== src/Lifecycle/Reachable.antt =====
-- The invariant over every run of statements.
use executr.Prelude.{
  ℤ, ◌≡◌, refl, ◌&&◌, Option, none, some, List, [], ◌∷◌, ◌==◌, arith, any, Bool-cases, inl, inr,
  &&-right, String, All-ne_of_any, pos,
}
use executr.Models.{Priority}
use executr.Store.Row.{Job, JobAttempt, Tables, Context, Result, guarded, no_tables, has_id}
use executr.Store.Jobs.{
  CreateJobParams, new_job, insert_with, claim_row, claimed_job, check_priority, is_old, next_job,
  is_pending, is_running, held_by, completed_job, failed_job, claim_next_job,
}
use executr.Store.Retry.{is_failed, retried_job}
use executr.Store.Jobs
use executr.Store.Retry
use executr.Store.Attempts
use executr.Store.Attempts.{RecordJobAttemptParams, new_attempt}
use executr.Store.Statement.{
  Statement, exec, run, create_job, create_job_with_retries, claim_next_job as claim,
  record_job_attempt, update_heartbeat, complete_job, fail_job, cancel_job, reset_stale_job,
  increment_job_retry, cleanup_old_jobs,
}
use executr.Lifecycle.Rows.{
  new_job-IsValidJob, claimed_job-IsValidJob, heartbeat-IsValidJob, completed_job-IsValidJob,
  failed_job-IsValidJob, cancelled-IsValidJob, reset-IsValidJob, retried_job-IsValidJob,
}
use executr.Lifecycle.Tables.{IsValid, attempt_key, update-IsValid, insert-IsValid, delete-IsValid}
use executr.Lifecycle.Claim.{claim_guard}

guarded-IsValid :
    {A : Type 0} (c : Context) (t : Tables) (r : Tables × Result A)
    → IsValid t
    → IsValid r.0
    → IsValid (guarded c t r).0
guarded-IsValid c t r v h = elim (Bool-cases c.up) [ inl e ↦ rw e h | inr e ↦ rw e v ]

insert_with-IsValid :
    (o : Option Priority) (p : CreateJobParams) (m : ℤ) (c : Context) (t : Tables)
    → IsValid t
    → IsValid (insert_with o p m c t).0
insert_with-IsValid none p m c t v = v
insert_with-IsValid (some q) p m c t v = elim (Bool-cases (any (has_id c.fresh) t.jobs)) [
  | inl taken ↦ rw taken v
  | inr new ↦ rw new (insert-IsValid (new_job p q m c) t (new_job-IsValidJob p q m c) new v)
]

claim_row-IsValid :
    (o : Option Job) (e : String) (c : Context) (t : Tables)
    → next_job c.locked t.jobs ≡ o
    → IsValid t
    → IsValid (claim_row o e c t).0
claim_row-IsValid none e c t h v = v
claim_row-IsValid (some k) e c t h v =
    let f : Job → Job = claimed_job e c.now in
    rw (claim_guard c.locked t.jobs k f v.keys h) (
      update-IsValid (λ j. has_id k.id j && is_pending j.status) f t (λ j. refl)
        (λ j w ok. claimed_job-IsValidJob e c.now j (&&-right (has_id k.id j) _ w) ok) v)

record_job_attempt-IsValid :
    (p : RecordJobAttemptParams) (c : Context) (t : Tables)
    → IsValid t
    → IsValid (Attempts.record_job_attempt p c t).0
unfolding Attempts.record_job_attempt
record_job_attempt-IsValid p c t v =
    guarded-IsValid c t _ v
      (elim (Bool-cases (any (λ (a : JobAttempt). a.id == c.fresh) t.attempts)) [
        | inl taken ↦ rw taken v
        | inr new ↦ elim (Bool-cases (any (has_id p.job_id) t.jobs)) [
          | inr gone ↦ rw (new, gone) v
          | inl there ↦
              rw (new, there)
                (record {
                  rows = v.rows;
                  keys = v.keys;
                  attempt_keys = (All-ne_of_any attempt_key c.fresh t.attempts new, v.attempt_keys);
                  references = (there, v.references);
                })
        ]
      ])

-- Every statement keeps the invariant.
pub exec-IsValid : (s : Statement) (c : Context) (t : Tables) → IsValid t → IsValid (exec s c t)
unfolding exec
exec-IsValid (create_job p) c t v =
    unfold Jobs.create_job in
    guarded-IsValid c t _ v (insert_with-IsValid (check_priority p.priority) p (pos 0) c t v)
exec-IsValid (create_job_with_retries p) c t v =
    unfold Retry.create_job_with_retries in
    guarded-IsValid c t _ v
      (insert_with-IsValid (check_priority p.job.priority) p.job p.max_retries c t v)
exec-IsValid (claim e) c t v =
    unfold Jobs.claim_next_job in
    guarded-IsValid c t _ v (claim_row-IsValid (next_job c.locked t.jobs) e c t refl v)
exec-IsValid (record_job_attempt p) c t v = record_job_attempt-IsValid p c t v
exec-IsValid (update_heartbeat i e) c t v =
    unfold Jobs.update_heartbeat in
    guarded-IsValid c t _ v (
      update-IsValid _ _ t (λ j. refl) (λ j w ok. heartbeat-IsValidJob c.now j (ground arith) ok) v)
exec-IsValid (complete_job p) c t v =
    unfold Jobs.complete_job in
    guarded-IsValid c t _ v (
      update-IsValid _ _ t (λ j. refl)
        (λ j w ok. completed_job-IsValidJob p c.now j (&&-right (has_id p.id j) _ w) ok) v)
exec-IsValid (fail_job p) c t v =
    unfold Jobs.fail_job in
    guarded-IsValid c t _ v (
      update-IsValid _ _ t (λ j. refl)
        (λ j w ok. failed_job-IsValidJob p c.now j (&&-right (has_id p.id j) _ w) ok) v)
exec-IsValid (cancel_job i) c t v =
    unfold Jobs.cancel_job in
    guarded-IsValid c t _ v (
      update-IsValid _ _ t (λ j. refl)
        (λ j w ok. cancelled-IsValidJob c.now j (&&-right (has_id i j) _ w) ok) v)
exec-IsValid (reset_stale_job i) c t v =
    unfold Jobs.reset_stale_job in
    guarded-IsValid c t _ v (
      update-IsValid _ _ t (λ j. refl) (λ j w ok. reset-IsValidJob j (&&-right (has_id i j) _ w) ok)
        v)
exec-IsValid (increment_job_retry i) c t v =
    unfold Retry.increment_job_retry in
    guarded-IsValid c t _ v (
      update-IsValid _ _ t (λ j. refl)
        (λ j w ok. retried_job-IsValidJob c.now j (ground arith) (ground arith) ok) v)
exec-IsValid (cleanup_old_jobs r) c t v =
    unfold Jobs.cleanup_old_jobs in guarded-IsValid c t _ v (delete-IsValid (is_old c.now r) t v)

pub run-IsValid : (ss : List (Statement × Context)) (t : Tables) → IsValid t → IsValid (run ss t)
unfolding run
run-IsValid [] t v = v
run-IsValid ((s, c) ∷ ss) t v = run-IsValid ss (exec s c t) (exec-IsValid s c t v)

-- From the empty tables the server's statements, in any order and interleaving, with any failures
-- and row locks, lead only to tables in which ids are unique, every attempt refers to a job, and
-- each job has exactly the columns set that its status calls for and a retry count within its
-- budget.
pub run-reachable : (ss : List (Statement × Context)) → IsValid (run ss no_tables)
run-reachable ss =
    run-IsValid ss no_tables (record { rows = tt; keys = tt; attempt_keys = tt; references = tt })
