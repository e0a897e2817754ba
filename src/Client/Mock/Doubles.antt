-- ===== src/Client/Mock/Doubles.antt =====
-- That the mock of pkg/client/mock.go stands for the HTTP client and the server behind it: the
-- cases of one call.
use executr.Prelude.{
  ◌≡◌, refl, sym, Bool, true, false, not, ◌&&◌, String, Option, none, some, List, arith, All, any,
  str_eq, to_int32,
}
use mathlib.Core.Path.{subst}
use executr.Models
use executr.Models.{UuidNumber, Status, JobSubmission, CompleteRequest, FailRequest}
use executr.Store.Row.{Job, Tables, Context, ok, no_rows, get}
use executr.Store.Jobs
use executr.Store.Jobs.{
  is_pending, is_running, claimable, next_job, claim_row, claimed_job, held_by, check_priority,
  new_job,
}
use executr.Lifecycle.Rows.{IsValidJob}
use executr.Lifecycle.Tables.{IsValid}
use executr.Lifecycle.Updates.{
  cancelled_job, cancel_job-UpdatesOne, complete_job-UpdatesOne, fail_job-UpdatesOne,
}
use executr.Server.Execution.{complete_params, fail_params}
use executr.Server.Convert.{EnvJson, text_or_empty}
use executr.Client.Calls.{Outcome}
use executr.Client.Contract
use executr.Client.Contract.{acknowledged, on_store}
use executr.Client.Mock.{MockJob, Reply, MockClient, job_at, change_job, completion_of, failure_of}
use executr.Client.Mock.Operations.{if_held, cancel_found, found, unless_replaced}
use executr.Client.Mock.Same.{cancel-Same, completion-Same, failure-Same}
use executr.Client.Mock.Agreement.{
  SameAt, Agrees, Agreement, SameAnswer, guarded_change, guarded_change-Agreement,
}

-- If the job runs, the executor has it.
abbrev pub IsOwned : String → Option Job → Type 0
IsOwned e none = Unit
IsOwned e (some r) = (is_running r.status && not (str_eq (text_or_empty r.executor_id) e)) ≡ false

abbrev pub IsHeld : String → Option Job → Type 0
IsHeld e none = ⊥
IsHeld e (some r) = (is_running r.status ≡ true) × (text_or_empty r.executor_id ≡ e)

abbrev pub waits : MockJob → Bool
waits j = is_pending j.status

-- The first job that the server would hand out is the first pending one that the mock visits.
abbrev pub SameFirst : Option Job → Option MockJob → Type 0
SameFirst (some r) (some j) = j.id ≡ r.id
SameFirst _ _ = Unit

-- What `range` visits: jobs of the map, and a pending one if there is one.
abbrev pub IsVisit : (List MockJob → List MockJob) → MockClient → Type 0
IsVisit visit m =
    All (λ j. job_at j.id m ≡ some j) (visit m.jobs) × (any waits (visit m.jobs) ≡ any waits m.jobs)

module _ (env : EnvJson) (m : MockClient) (c : Context) (t : Tables) (agrees : Agrees env m t)
    (v : IsValid t) (up : c.up ≡ true) where
  held-guarded :
      (i : UuidNumber) (e : String) (f : MockJob → MockJob) (o : Option MockJob) (p : Option Job)
      → SameAt env o p
      → IsOwned e p
      → if_held e (λ j. change_job j.id f m) m o ≡ guarded_change is_running f m o
  held-guarded i e f none none s h = refl
  held-guarded i e f none (some r) s h = absurd s
  held-guarded i e f (some j) none s h = absurd s
  held-guarded i e f (some j) (some r) s h =
      let status : j.status ≡ r.status = s.1.0 in
      let executor : j.executor_id ≡ text_or_empty r.executor_id = s.1.1 in ground arith

  pub own_answer :
      (o : Option Reply) (own : MockClient × Reply) (q : Tables × Outcome)
      → o ≡ none
      → Agreement env own q
      → Agreement env (unless_replaced o m own) q
  own_answer o own q e h = subst (λ x. Agreement env (unless_replaced x m own) q) (sym e) h

  gets :
      (i : UuidNumber) (o : Option MockJob) (p : Option Job)
      → SameAt env o p
      → SameAnswer env
          (found o)
          (Contract.fetched env i (elim p [ none ↦ no_rows | some r ↦ ok r ]))
  gets i none none s = tt
  gets i none (some r) s = s
  gets i (some j) none s = s
  gets i (some j) (some r) s = (r, refl, s)

  pub get-Agreement :
      (i : UuidNumber)
      → Agreement env (m, found (job_at i m)) (t, Contract.fetched env i (Jobs.get_job i c t))
  unfolding Jobs.get_job
  get-Agreement i = rw up (agrees, gets i (job_at i m) (get i t) (agrees.0 i))

  pub cancel-Agreement :
      (i : UuidNumber)
      → Agreement env
          (cancel_found m (job_at i m))
          (acknowledged "Failed to cancel job" (Jobs.cancel_job i c t))
  cancel-Agreement i =
      subst (λ p. Agreement env p (acknowledged "Failed to cancel job" (Jobs.cancel_job i c t)))
        (sym (turned (job_at i m)))
        (guarded_change-Agreement env i is_pending (λ x. record x { status = Models.cancelled })
          (cancelled_job c.now) "Failed to cancel job" m c t agrees v up (λ x. refl)
          (λ j r s passes there valid. cancel-Same env c.now j r s) (Jobs.cancel_job i c t)
          (cancel_job-UpdatesOne i c t v))
    where
      turned :
          (o : Option MockJob)
          → cancel_found m o
            ≡ guarded_change is_pending (λ x. record x { status = Models.cancelled }) m o
      turned none = refl
      turned (some j) = ground arith

  -- A report of the executor that has the job, with an exit code of 32 bits.
  pub complete-Agreement :
      (i : UuidNumber) (q : CompleteRequest)
      → to_int32 q.exit_code ≡ q.exit_code
      → IsOwned q.executor_id (get i t)
      → Agreement env
          (if_held q.executor_id (λ j. change_job j.id (completion_of q) m) m (job_at i m))
          (acknowledged "Failed to complete job" (Jobs.complete_job (complete_params i q) c t))
  complete-Agreement i q fits owned =
      subst
        (λ p.
          Agreement env p
            (acknowledged "Failed to complete job" (Jobs.complete_job (complete_params i q) c t)))
        (sym (
          held-guarded i q.executor_id (completion_of q) (job_at i m) (get i t) (agrees.0 i) owned))
        (guarded_change-Agreement env i is_running (completion_of q)
          (Jobs.completed_job (complete_params i q) c.now) "Failed to complete job" m c t agrees v
          up (λ x. refl) (λ j r s passes there valid. completion-Same env i q c.now j r fits s)
          (Jobs.complete_job (complete_params i q) c t)
          (complete_job-UpdatesOne (complete_params i q) c t v))

  no_code : (r : Job) → is_running r.status ≡ true → IsValidJob r → r.exit_code ≡ none
  no_code r runs valid = ground (arith, valid.shape)

  pub fail-Agreement :
      (i : UuidNumber) (q : FailRequest)
      → to_int32 q.exit_code ≡ q.exit_code
      → IsOwned q.executor_id (get i t)
      → Agreement env
          (if_held q.executor_id (λ j. change_job j.id (failure_of q) m) m (job_at i m))
          (acknowledged "Failed to mark job as failed" (Jobs.fail_job (fail_params i q) c t))
  fail-Agreement i q fits owned =
      subst
        (λ p.
          Agreement env p
            (acknowledged "Failed to mark job as failed" (Jobs.fail_job (fail_params i q) c t)))
        (sym
          (held-guarded i q.executor_id (failure_of q) (job_at i m) (get i t) (agrees.0 i) owned))
        (guarded_change-Agreement env i is_running (failure_of q)
          (Jobs.failed_job (fail_params i q) c.now) "Failed to mark job as failed" m c t agrees v up
          (λ x. refl)
          (λ j r s passes there valid.
            failure-Same env i q c.now j r fits (no_code r passes valid) s)
          (Jobs.fail_job (fail_params i q) c t) (fail_job-UpdatesOne (fail_params i q) c t v))
