-- ===== src/Client/Mock/Claim.antt =====
-- A claim does the same to the jobs of the mock of pkg/client/mock.go and to the server's rows.
use executr.Prelude.{
  ℕ, ◌≡◌, ◌∙◌, refl, sym, ap, true, false, String, Option, none, some, List, arith, All-find, find,
  any, update, any-pick, any-find, any_of_find, any_of_find-none, find-update_key, Distinct-find,
  Bool-cases, inl, inr, &&-left,
}
use mathlib.Core.Path.{subst}
use executr.Models.{UuidNumber}
use executr.Store.Row.{Job, Tables, Context, ok, has_id, get, guarded_up}
use executr.Store.Jobs
use executr.Store.Jobs.{
  is_pending, is_running, claimable, next_job, claim_row, claimed_job, held_by, check_priority,
  new_job,
}
use executr.Store.Attempts.{RecordJobAttemptParams, record_job_attempt}
use executr.Lifecycle.Tables.{IsValid, job_key}
use executr.Lifecycle.Claim.{next_job-find, next_job-none, next_job-claimable}
use executr.Server.Convert.{EnvJson}
use executr.Client.Contract
use executr.Client.Contract.{acknowledged}
use executr.Client.Mock.{MockJob, got, MockClient, is_job, job_at, change_job, claim_of}
use executr.Client.Mock.Operations.{claim_found}
use executr.Client.Mock.Same.{Same, claim-Same}
use executr.Client.Mock.Agreement.{mock_key, SameAt, SameAt-pair, Agrees, Agreement, change-Agrees}
use executr.Client.Mock.Doubles.{IsVisit, SameFirst, waits}

-- The attempt of a claim changes no job.
record-jobs :
    (p : RecordJobAttemptParams) (c : Context) (t : Tables)
    → (record_job_attempt p c t).0.jobs ≡ t.jobs
unfolding record_job_attempt
record-jobs p c t = ground arith

module _ (env : EnvJson) (m : MockClient) (c : Context) (t : Tables) (agrees : Agrees env m t)
    (v : IsValid t) (up : c.up ≡ true) where
  -- Tables with the same jobs.
  moved-Agrees :
      (m' : MockClient) (t' t'' : Tables)
      → t''.jobs ≡ t'.jobs
      → Agrees env m' t'
      → Agrees env m' t''
  moved-Agrees m' t' t'' e (rows, keys, plain) = (
    λ k. subst (λ js. SameAt env (job_at k m') (find (has_id k) js)) (sym e) (rows k),
    keys,
    plain,
  )

  -- The server has nothing to hand out: then no job of the mock waits.
  none_waits :
      ((k : UuidNumber) → c.locked k ≡ false)
      → next_job c.locked t.jobs ≡ none
      → any waits m.jobs ≡ false
  none_waits unlocked h = elim (Bool-cases (any waits m.jobs)) [
    | inr e ↦ e
    | inl e ↦
        let (j, waiting, here) =
          any-pick (λ j. job_at j.id m ≡ some j) waits m.jobs
            (Distinct-find mock_key m.jobs agrees.1) e in
        absurd (
          no_row j (get j.id t) refl waiting
            (subst (λ o. SameAt env o (get j.id t)) here (agrees.0 j.id)))
  ]
    where
      no_row :
          (j : MockJob) (p : Option Job)
          → get j.id t ≡ p
          → waits j ≡ true
          → SameAt env (some j) p
          → ⊥
      no_row j none there waiting s = s
      no_row j (some r) there waiting s =
          let pending : is_pending r.status ≡ true = ap is_pending (sym s.1.0) ∙ waiting in
          let free : claimable c.locked r ≡ true = rw (pending, unlocked r.id) refl in
          cc (
            any_of_find (has_id j.id) (claimable c.locked) t.jobs r there free,
            next_job-none c.locked t.jobs h,
          )

  -- One that does has a job of the mock that waits.
  one_waits :
      (k : Job)
      → next_job c.locked t.jobs ≡ some k
      → (j : MockJob) × (job_at k.id m ≡ some j) × Same env j k × (waits j ≡ true)
  one_waits k h =
      let there : get k.id t ≡ some k = next_job-find c.locked t.jobs k v.keys h in
      let (j, here, s) =
        SameAt-pair env (job_at k.id m) k
          (subst (SameAt env (job_at k.id m)) there (agrees.0 k.id)) in
      (
        j,
        here,
        s,
        ap is_pending s.1.0
            ∙ &&-left (is_pending k.status) _ (next_job-claimable c.locked t.jobs k h),
      )

  -- The job that both sides hand out.
  claims_one :
      (visit : List MockJob → List MockJob) (e ip : String) (c' : Context) (k : Job) (j : MockJob)
      → get k.id t ≡ some k
      → job_at j.id m ≡ some j
      → j.id ≡ k.id
      → Same env j k
      → Agreement env
          (claim_found visit e m (some j))
          (Contract.claimed env e ip c' (claim_row (some k) e c t))
  claims_one visit e ip c' k j there here ids s =
      let k' : Job = claimed_job e c.now k in
      let t' : Tables = record t { jobs = update (has_id k.id) (claimed_job e c.now) t.jobs } in
      let same : Same env (claim_of e j) k' = claim-Same env e c.now j k s in
      let at_k : job_at k.id m ≡ some j = subst (λ (i : ℕ). job_at i m ≡ some j) ids here in
      let row : claim_row (some k) e c t ≡ (t', ok k') = rw there refl in
      let taken : Agrees env (change_job k.id (claim_of e) m) t' =
        change-Agrees env k.id (claim_of e) m j k' t t' agrees (λ x. refl) at_k same
          (λ i. find-update_key job_key i k.id (claimed_job e c.now) t.jobs k (λ x. refl) there) in
      let p : RecordJobAttemptParams = record {
        job_id = k.id;
        executor_id = e;
        executor_ip = ip;
      } in
      subst
        (λ q.
          Agreement env (change_job j.id (claim_of e) m, got (claim_of e j))
            (Contract.claimed env e ip c' q))
        (sym row)
        (subst
          (λ (i : ℕ).
            Agreement env (change_job i (claim_of e) m, got (claim_of e j))
              (Contract.claimed env e ip c' (t', ok k')))
          (sym ids)
          (
            moved-Agrees (change_job k.id (claim_of e) m) t' (record_job_attempt p c' t').0
                (record-jobs p c' t') taken,
            (k', refl, same),
          ))

  claim_cases :
      (visit : List MockJob → List MockJob) (e ip : String) (c' : Context) (o : Option Job)
      (mo : Option MockJob)
      → ((k : UuidNumber) → c.locked k ≡ false)
      → IsVisit visit m
      → next_job c.locked t.jobs ≡ o
      → find waits (visit m.jobs) ≡ mo
      → SameFirst o mo
      → Agreement env (claim_found visit e m mo) (Contract.claimed env e ip c' (claim_row o e c t))
  claim_cases visit e ip c' none none unlocked visits h g first = (agrees, tt)
  claim_cases visit e ip c' none (some j) unlocked visits h g first =
      absurd (cc (any-find waits (visit m.jobs) j g, visits.1, none_waits unlocked h))
  claim_cases visit e ip c' (some k) none unlocked visits h g first =
      let (j, here, s, waiting) = one_waits k h in
      absurd (
        cc (
          any_of_find (is_job k.id) waits m.jobs j here waiting,
          visits.1,
          any_of_find-none waits (visit m.jobs) g,
        ))
  claim_cases visit e ip c' (some k) (some j) unlocked visits h g first =
      let (j', here', s, waiting) = one_waits k h in
      let here : job_at j.id m ≡ some j =
        All-find (λ x. job_at x.id m ≡ some x) waits (visit m.jobs) j visits.0 g in
      let at_k : job_at k.id m ≡ some j = subst (λ (i : ℕ). job_at i m ≡ some j) first here in
      let it : j' ≡ j = cc (here', at_k) in
      claims_one visit e ip c' k j (next_job-find c.locked t.jobs k v.keys h) here first
        (subst (λ x. Same env x k) it s)

  -- A claim where the mock visits first the job that the server would choose.
  pub claim-Agreement :
      (visit : List MockJob → List MockJob) (e ip : String) (c' : Context)
      → ((k : UuidNumber) → c.locked k ≡ false)
      → IsVisit visit m
      → SameFirst (next_job c.locked t.jobs) (find waits (visit m.jobs))
      → Agreement env
          (claim_found visit e m (find waits (visit m.jobs)))
          (Contract.claimed env e ip c' (Jobs.claim_next_job e c t))
  unfolding Jobs.claim_next_job
  claim-Agreement visit e ip c' unlocked visits first =
      subst
        (λ p.
          Agreement env (claim_found visit e m (find waits (visit m.jobs)))
            (Contract.claimed env e ip c' p))
        (sym (guarded_up c t (claim_row (next_job c.locked t.jobs) e c t) up))
        (claim_cases visit e ip c' (next_job c.locked t.jobs) (find waits (visit m.jobs)) unlocked
          visits refl refl first)
