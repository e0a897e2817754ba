-- ===== src/Client/Mock/Submission.antt =====
-- A submission and a heartbeat do the same to the mock's jobs and to the server's rows.
use executr.Prelude.{
  ◌≡◌, refl, sym, Bool, true, false, ◌&&◌, String, Option, none, some, ◌∷◌, arith, find, any,
  update, if◌then◌else◌, find-update, Bool-cases, inl, inr, eq_iff, pos,
}
use mathlib.Core.Path.{subst}
use mathlib.Core.Option
use executr.Models
use executr.Models.{UuidNumber, Status, JobSubmission}
use executr.Store.Row.{Job, Tables, Context, Result, ok, has_id, get, guarded, guarded_up}
use executr.Store.Jobs
use executr.Store.Jobs.{
  is_pending, is_running, claimable, next_job, claim_row, claimed_job, held_by, check_priority,
  new_job,
}
use executr.Lifecycle.Tables.{IsValid}
use executr.Server.Answers.{created}
use executr.Server.Jobs.{create_params}
use executr.Server.Convert.{EnvJson, IsMap, text_or_empty}
use executr.Client.Contract
use executr.Client.Contract.{acknowledged}
use executr.Client.Mock.{MockJob, got, done, MockClient, job_at, submitted_job, put_job}
use executr.Client.Mock.Operations.{if_held}
use executr.Client.Mock.Same.{Same, submitted-Same}
use executr.Client.Mock.Agreement.{SameAt, Agrees, Agreement, put-Agrees}
use executr.Client.Mock.Doubles.{IsHeld}

module _ (env : EnvJson) (m : MockClient) (c : Context) (t : Tables) (agrees : Agrees env m t)
    (v : IsValid t) (up : c.up ≡ true) where
  pub submit-Agreement :
      (s : JobSubmission) (q : Models.Priority)
      → check_priority s.priority ≡ some q
      → IsMap s.env_variables
      → any (has_id c.fresh) t.jobs ≡ false
      → Agreement env
          (put_job (submitted_job c.fresh s) m, got (submitted_job c.fresh s))
          (Contract.created env (Jobs.create_job (create_params env s) c t))
  unfolding find
  submit-Agreement s q known map new =
      let r : Job = new_job (create_params env s) q (pos 0) c in
      let same : Same env (submitted_job c.fresh s) r = submitted-Same env s q c known map in
      let made : Jobs.create_job (create_params env s) c t
          ≡ (record t { jobs = r ∷ t.jobs }, ok r) =
        created (create_params env s) q c t known new up in
      subst
        (λ p.
          Agreement env (put_job (submitted_job c.fresh s) m, got (submitted_job c.fresh s))
            (Contract.created env p))
        (sym made)
        (
          put-Agrees env m (submitted_job c.fresh s) r t (record t { jobs = r ∷ t.jobs }) agrees
              same (λ k. refl),
          (r, refl, same),
        )

  heartbeat_row :
      (i : UuidNumber) (e : String) (o : Option MockJob) (p : Option Job)
      → SameAt env o p
      → SameAt env o (
          Option.map
            (λ r.
              if has_id i r && (is_running r.status && held_by e r.executor_id)
              then record r { last_heartbeat = some c.now }
              else r)
            p)
  heartbeat_row i e none none s = s
  heartbeat_row i e none (some r) s = s
  heartbeat_row i e (some j) none s = s
  heartbeat_row i e (some j) (some r) s =
      elim (Bool-cases (has_id i r && (is_running r.status && held_by e r.executor_id))) [
        | inl beats ↦ rw beats s
        | inr still ↦ rw still s
      ]

  held :
      (e : String) (o : Option MockJob) (p : Option Job)
      → SameAt env o p
      → IsHeld e p
      → if_held e (λ j. m) m o ≡ (m, done)
  held e none none s h = absurd h
  held e none (some r) s h = absurd s
  held e (some j) none s h = absurd s
  held e (some j) (some r) s h =
      let status : j.status ≡ r.status = s.1.0 in
      let executor : j.executor_id ≡ text_or_empty r.executor_id = s.1.1 in
      ground (arith, eq_iff j.executor_id e)

  -- A heartbeat of the executor that has the job.
  pub heartbeat-Agreement :
      (i : UuidNumber) (e : String)
      → IsHeld e (get i t)
      → Agreement env
          (if_held e (λ j. m) m (job_at i m))
          (acknowledged "Failed to update heartbeat" (Jobs.update_heartbeat i e c t))
  unfolding Jobs.update_heartbeat
  heartbeat-Agreement i e h =
      let w : Job → Bool = λ r. is_running r.status && held_by e r.executor_id in
      let f : Job → Job = λ r. record r { last_heartbeat = some c.now } in
      let q : Tables × Result (Unit {0}) =
        (record t { jobs = update (λ r. has_id i r && w r) f t.jobs }, ok tt) in
      let beat : guarded c t q ≡ q = guarded_up c t q up in
      subst (λ p. Agreement env p (acknowledged "Failed to update heartbeat" (guarded c t q)))
        (sym (held e (job_at i m) (get i t) (agrees.0 i) h))
        (subst (λ p. Agreement env (m, done) (acknowledged "Failed to update heartbeat" p))
          (sym beat)
          (
            (
              λ k.
                  subst (SameAt env (job_at k m))
                    (sym (find-update (has_id k) (λ r. has_id i r && w r) f t.jobs (λ x. refl)))
                    (heartbeat_row i e (job_at k m) (get k t) (agrees.0 k)),
              agrees.1,
              agrees.2,
            ),
            tt,
          ))
