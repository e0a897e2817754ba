-- ===== src/Tests/Life.antt =====
-- The theorems on the life cycle of a job at concrete data.
use executr.Prelude.{◌≡◌, ◌≢◌, refl, ℕ, ◌+◌, pos, none, some, List, [], ◌∷◌, true, false, String}
use executr.Models.{completed}
use executr.Store.Row.{Job, Tables, get, ok, no_rows, no_tables, Context}
use executr.Store.Jobs.{
  claim_next_job, complete_job, fail_job, cancel_job, claimed_job, completed_job, failed_job,
  is_running, is_pending,
}
use executr.Store.Statement.{Statement, exec, run}
use executr.Lifecycle.Tables.{IsValid}
use executr.Lifecycle.Reachable.{run-reachable}
use executr.Lifecycle.Arrows.{Change}
use executr.Lifecycle.Edges.{exec-Change}
use executr.Lifecycle.History.{Later, finished-run, run-Later}
use executr.Lifecycle.Claiming.{claimed-once}
use executr.Lifecycle.Handing.{HandsOut, claim_next_job-HandsOut}
use executr.Lifecycle.Updates.{
  UpdatesOne, cancelled_job, complete_job-UpdatesOne, cancel_job-UpdatesOne,
}
use executr.Lifecycle.Open.{AllOpen, attempts_open}
use executr.Tests.Data.{
  at, life, queue, busy, done, running_job, background_job, completed_one, completion,
  queue-IsValid, busy-IsValid, done-IsValid,
}

run-reachable_example : IsValid (run life no_tables)
run-reachable_example = run-reachable life

exec-Change_example :
    Change false false
      (get 2 busy)
      (get 2 (exec (Statement.complete_job completion) (at 4000 4) busy))
exec-Change_example =
    exec-Change (Statement.complete_job completion) (at 4000 4) busy 2 busy-IsValid

claim_next_job-HandsOut_example :
    HandsOut "runner-1" (at 3000 3) queue (claim_next_job "runner-1" (at 3000 3) queue)
claim_next_job-HandsOut_example = claim_next_job-HandsOut "runner-1" (at 3000 3) queue queue-IsValid

-- The foreground job goes first, though it is the younger one.
first_claim : claim_next_job "runner-1" (at 3000 3) queue ≡ (busy, ok running_job)
unfolding claim_next_job executr.Store.Jobs.next_job executr.Prelude.update executr.Prelude.find
first_claim = refl

abbrev beats : List (Statement × Context)
beats = (Statement.update_heartbeat 2 "runner-1", at 3500 4) ∷ []

abbrev second_job : Job
second_job = claimed_job "runner-2" 3600 background_job

abbrev all_busy : Tables
all_busy = record {
  jobs = (record running_job { last_heartbeat = some 3500 }) ∷ second_job ∷ [];
  attempts = [];
}

second_claim : claim_next_job "runner-2" (at 3600 5) (run beats busy) ≡ (all_busy, ok second_job)
unfolding claim_next_job executr.Store.Jobs.next_job run exec executr.Store.Jobs.update_heartbeat
    executr.Prelude.update executr.Prelude.find
second_claim = refl

claimed-once_example : second_job.id ≢ running_job.id
claimed-once_example =
    claimed-once "runner-1" "runner-2" (at 3000 3) (at 3600 5) queue busy all_busy beats running_job
      second_job queue-IsValid ((refl, refl), tt) first_claim second_claim

abbrev late : List (Statement × Context)
late =
    (Statement.cancel_job 2, at 5000 5)
    ∷ (Statement.reset_stale_job 2, at 6000 6)
    ∷ (Statement.claim_next_job "runner-2", at 7000 7)
    ∷ []

completed_there : get 2 done ≡ some completed_one
unfolding executr.Prelude.find
completed_there = refl

finished-run_example : get 2 (run late done) ≡ some completed_one
finished-run_example =
    finished-run late done 2 completed_one done-IsValid (refl, (refl, (refl, tt))) completed_there
      refl

running_there : get 2 busy ≡ some running_job
unfolding executr.Prelude.find
running_there = refl

run-Later_example : Later running_job (get 2 (run late busy))
run-Later_example =
    run-Later late busy 2 running_job busy-IsValid (refl, (refl, (refl, tt))) running_there

complete_job-UpdatesOne_example :
    UpdatesOne 2
      (λ j. is_running j.status)
      (λ j. record j {
        status = completed;
        stdout = some "ok";
        stderr = some "";
        exit_code = some (pos 0);
        completed_at = some 4000;
      })
      (at 4000 4)
      busy
      (complete_job completion (at 4000 4) busy)
complete_job-UpdatesOne_example = complete_job-UpdatesOne completion (at 4000 4) busy busy-IsValid

cancel_job-UpdatesOne_example :
    UpdatesOne 1
      (λ j. is_pending j.status)
      (cancelled_job 4000)
      (at 4000 4)
      busy
      (cancel_job 1 (at 4000 4) busy)
cancel_job-UpdatesOne_example = cancel_job-UpdatesOne 1 (at 4000 4) busy busy-IsValid

-- A running job is not cancelled.
cancel_refused : cancel_job 2 (at 4000 4) busy ≡ (busy, no_rows)
unfolding cancel_job executr.Prelude.update executr.Prelude.find
cancel_refused = refl

attempts_open_example : AllOpen (run life no_tables)
attempts_open_example = attempts_open life
