-- ===== src/Lifecycle/Edges.antt =====
-- The life cycle of one job: how a single statement can change the row of an id.
use executr.Prelude.{pos, refl, true, false, not, arith, inr, &&-left, &&-right, find-keep}
use executr.Models.{UuidNumber}
use executr.Store.Row.{Tables, Context, has_id, get}
use executr.Store.Jobs.{
  CreateJobParams, new_job, insert_with, claim_row, claimed_job, check_priority, is_old, next_job,
  is_pending, is_running, is_terminal, held_by, completed_job, failed_job, delete_jobs,
}
use executr.Store.Retry.{is_failed, retried_job}
use executr.Store.Jobs
use executr.Store.Retry
use executr.Store.Statement.{
  Statement, exec, create_job, create_job_with_retries, claim_next_job as claim, record_job_attempt,
  update_heartbeat, complete_job, fail_job, cancel_job, reset_stale_job, increment_job_retry,
  cleanup_old_jobs,
}
use executr.Lifecycle.Tables.{IsValid, job_key}
use executr.Lifecycle.Arrows.{
  cancel, complete, fail, reset, retry, deletes, returns, Change, Moves-pending, Moves-running,
  Moves-failed, Moves-on, guarded-Change, update-Change, insert_with-Change, deleted-Change,
  claim_row-Change, attempt_keeps,
}

-- In a table that satisfies the invariant, one statement of the server, whatever fails and
-- whatever is locked, changes the row of each id only along an arrow of the life cycle (pending to
-- running or cancelled, running to completed, failed or back to pending, failed back to pending),
-- or without leaving `running`, or creates it pending, or deletes it in a final status, or leaves
-- it as it is. What was submitted never changes, and the retry count grows by one exactly when a
-- failed job whose count is below its budget is put back; only the two statements that return jobs
-- make a known job pending, and only the cleanup deletes.
pub exec-Change :
    (s : Statement) (c : Context) (t : Tables) (i : UuidNumber)
    → IsValid t
    → Change (deletes s) (returns s) (get i t) (get i (exec s c t))
unfolding exec
exec-Change (create_job p) c t i v =
    unfold Jobs.create_job in
    guarded-Change false false i c t _
      (insert_with-Change false false i (check_priority p.priority) p (pos 0) c t)
exec-Change (create_job_with_retries p) c t i v =
    unfold Retry.create_job_with_retries in
    guarded-Change false false i c t _
      (insert_with-Change false false i (check_priority p.job.priority) p.job p.max_retries c t)
exec-Change (claim e) c t i v =
    unfold Jobs.claim_next_job in
    guarded-Change false false i c t _
      (claim_row-Change false false i (next_job c.locked t.jobs) e c t refl v)
exec-Change (record_job_attempt p) c t i v = attempt_keeps false false i p c t
exec-Change (update_heartbeat u e) c t i v =
    unfold Jobs.update_heartbeat in
    guarded-Change false false i c t _ (
      update-Change false false i _ _ t (λ j. refl)
        (λ j w. inr (
          Moves-on false j _ (refl, refl, refl, refl, refl, refl, refl, refl, refl) (ground arith)
            (ground arith) refl (λ x. ground arith))))
exec-Change (complete_job p) c t i v =
    unfold Jobs.complete_job in
    guarded-Change false false i c t _ (
      update-Change false false i _ _ t (λ j. refl)
        (λ j w. inr (
          Moves-running false j _ (refl, refl, refl, refl, refl, refl, refl, refl, refl)
            (&&-right (has_id p.id j) _ w) refl complete (λ x. absurd (cc x)))))
exec-Change (fail_job p) c t i v =
    unfold Jobs.fail_job in
    guarded-Change false false i c t _ (
      update-Change false false i _ _ t (λ j. refl)
        (λ j w. inr (
          Moves-running false j _ (refl, refl, refl, refl, refl, refl, refl, refl, refl)
            (&&-right (has_id p.id j) _ w) refl fail (λ x. absurd (cc x)))))
exec-Change (cancel_job u) c t i v =
    unfold Jobs.cancel_job in
    guarded-Change false false i c t _ (
      update-Change false false i _ _ t (λ j. refl)
        (λ j w. inr (
          Moves-pending false j _ (refl, refl, refl, refl, refl, refl, refl, refl, refl)
            (&&-right (has_id u j) _ w) refl cancel (λ x. absurd (cc x)))))
exec-Change (reset_stale_job u) c t i v =
    unfold Jobs.reset_stale_job in
    guarded-Change false true i c t _ (
      update-Change false true i _ _ t (λ j. refl)
        (λ j w. inr (
          Moves-running true j _ (refl, refl, refl, refl, refl, refl, refl, refl, refl)
            (&&-right (has_id u j) _ w) refl reset (λ x. refl))))
exec-Change (increment_job_retry u) c t i v =
    unfold Retry.increment_job_retry in
    guarded-Change false true i c t _ (
      update-Change false true i _ _ t (λ j. refl)
        (λ j w. inr (
          Moves-failed true j _ (refl, refl, refl, refl, refl, refl, refl, refl, refl)
            (ground arith) (ground arith) refl retry (λ x. refl))))
exec-Change (cleanup_old_jobs r) c t i v =
    unfold Jobs.cleanup_old_jobs in
    guarded-Change true false i c t _ (
      rw (find-keep job_key i (λ j. not (is_old c.now r j)) t.jobs v.keys) (
        deleted-Change false (is_old c.now r) (get i t)
          (λ j w. &&-left (is_terminal j.status) _ w)))
