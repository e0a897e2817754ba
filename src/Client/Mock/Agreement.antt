-- ===== src/Client/Mock/Agreement.antt =====
-- The jobs of the mock of pkg/client/mock.go and the server's table side by side, and what changes
-- of one job on both sides keep.
use executr.Prelude.{
  ℕ, ◌≡◌, ◌∙◌, refl, sym, ap, Bool, true, false, not, String, Option, none, some, ◌==◌, ==_iff,
  All-find, find, find-passes, if◌then◌else◌, Distinct, Distinct-update, Distinct-keep,
  find-update_key, find-keep_other, All-ne-keep, Bool-cases, inl, inr,
}
use mathlib.Core.Path.{subst}
use executr.Models.{UuidNumber, Status}
use executr.Store.Row.{Job, Tables, Context, Result, ok, no_rows, failure, has_id, get}
use executr.Lifecycle.Rows.{IsValidJob}
use executr.Lifecycle.Tables.{IsValid}
use executr.Lifecycle.Updates.{UpdatesOne}
use executr.Server.Convert.{EnvJson, db_job_to_model}
use executr.Client.Calls.{Outcome}
use executr.Client.Contract.{acknowledged}
use executr.Client.Errors.{GoError, sentinel, err_job_not_found, err_bad_request}
use executr.Client.Mock.{
  MockJob, Reply, got, no_job, done, refused, MockClient, is_job, job_at, put_job, change_job,
  no_replacements,
}
use executr.Client.Mock.Same.{Same}

abbrev pub mock_key : MockJob → ℕ
mock_key j = j.id

abbrev pub SameAt : EnvJson → Option MockJob → Option Job → Type 0
SameAt env none none = Unit
SameAt env (some j) (some r) = Same env j r
SameAt env _ _ = ⊥

-- The mock, of which no operation is replaced, has the jobs of the table.
abbrev pub Agrees : EnvJson → MockClient → Tables → Type 0
Agrees env m t =
    ((k : UuidNumber) → SameAt env (job_at k m) (get k t))
    × Distinct mock_key m.jobs
    × (m.replaced ≡ no_replacements)

-- The answers of the two clients to one call.
abbrev pub SameAnswer : EnvJson → Reply → Outcome → Type 0
SameAnswer env (got j) (Outcome.got shown) =
    (r : Job) × (shown ≡ db_job_to_model env r) × Same env j r
SameAnswer env no_job Outcome.no_job = Unit
SameAnswer env done Outcome.done = Unit
SameAnswer env (refused e) (Outcome.failed x) = Unit
SameAnswer env _ _ = ⊥

abbrev pub Agreement : EnvJson → MockClient × Reply → Tables × Outcome → Type 0
Agreement env (m, a) (t, o) = Agrees env m t × SameAnswer env a o

-- A change under a guard on the status, as the operations of the mock make it.
abbrev pub guarded_change :
    (Status → Bool) → (MockJob → MockJob) → MockClient → Option MockJob → MockClient × Reply
guarded_change w f m none = (m, refused (sentinel err_job_not_found))
guarded_change w f m (some j) =
    if w j.status then (change_job j.id f m, done) else (m, refused (sentinel err_bad_request))

module _ (env : EnvJson) where
  SameAt-moved :
      (b : Bool) (j : MockJob) (r : Job) (o : Option MockJob) (p : Option Job)
      → Same env j r
      → SameAt env o p
      → SameAt env (if b then some j else o) (if b then some r else p)
  SameAt-moved true j r o p s rest = s
  SameAt-moved false j r o p s rest = rest

  -- The same change of the job `i` on both sides.
  pub change-Agrees :
      (i : UuidNumber) (f : MockJob → MockJob) (m : MockClient) (j : MockJob) (r' : Job)
      (t t' : Tables)
      → Agrees env m t
      → ((x : MockJob) → (f x).id ≡ x.id)
      → job_at i m ≡ some j
      → Same env (f j) r'
      → ((k : UuidNumber) → get k t' ≡ (if i == k then some r' else get k t))
      → Agrees env (change_job i f m) t'
  change-Agrees i f m j r' t t' (rows, keys, plain) same there s rows' = (
    λ k.
        let here : job_at k (change_job i f m) ≡ (if i == k then some (f j) else job_at k m) =
          find-update_key mock_key k i f m.jobs j same there in
        subst (λ o. SameAt env o (get k t')) (sym here)
          (subst (λ p. SameAt env (if i == k then some (f j) else job_at k m) p) (sym (rows' k))
            (SameAt-moved (i == k) (f j) r' (job_at k m) (get k t) s (rows k))),
    Distinct-update mock_key (is_job i) f same m.jobs keys,
    plain,
  )

  pub put-Agrees :
      (m : MockClient) (j : MockJob) (r : Job) (t t' : Tables)
      → Agrees env m t
      → Same env j r
      → ((k : UuidNumber) → get k t' ≡ (if j.id == k then some r else get k t))
      → Agrees env (put_job j m) t'
  unfolding find
  put-Agrees m j r t t' (rows, keys, plain) s rows' = (
    λ k.
        let here : job_at k (put_job j m) ≡ (if j.id == k then some j else job_at k m) =
          put_lookup k in
        subst (λ o. SameAt env o (get k t')) (sym here)
          (subst (λ p. SameAt env (if j.id == k then some j else job_at k m) p) (sym (rows' k))
            (SameAt-moved (j.id == k) j r (job_at k m) (get k t) s (rows k))),
    (
      All-ne-keep mock_key j.id m.jobs,
      Distinct-keep mock_key (λ x. not (is_job j.id x)) m.jobs keys,
    ),
    plain,
  )
    where
      put_lookup : (k : ℕ) → job_at k (put_job j m) ≡ (if j.id == k then some j else job_at k m)
      put_lookup k = elim (Bool-cases (j.id == k)) [
        | inl e ↦ rw e refl
        | inr e ↦ rw e (find-keep_other mock_key k j.id m.jobs e)
      ]

  pub SameAt-pair :
      (o : Option MockJob) (r : Job)
      → SameAt env o (some r)
      → (j : MockJob) × (o ≡ some j) × Same env j r
  SameAt-pair none r s = absurd s
  SameAt-pair (some j) r s = (j, refl, s)

  module _ (i : UuidNumber) (w : Status → Bool) (f : MockJob → MockJob) (g : Job → Job)
      (note : String) (m : MockClient) (c : Context) (t : Tables) (agrees : Agrees env m t)
      (v : IsValid t) (up : c.up ≡ true) (same : (x : MockJob) → (f x).id ≡ x.id)
      (step : (j : MockJob) (r : Job)
        → Same env j r
        → w r.status ≡ true
        → get i t ≡ some r
        → IsValidJob r
        → Same env (f j) (g r)) where
    refuses :
        (o : Option MockJob) (p : Option Job)
        → SameAt env o p
        → ((r : Job) → p ≡ some r → w r.status ≡ false)
        → (e : GoError) × (guarded_change w f m o ≡ (m, refused e))
    refuses none none s h = (sentinel err_job_not_found, refl)
    refuses none (some r) s h = absurd s
    refuses (some j) none s h = absurd s
    refuses (some j) (some r) s h =
        let closed : w j.status ≡ false = ap w s.1.0 ∙ h r refl in
        (sentinel err_bad_request, rw closed refl)

    -- A guarded change of the mock and the statement that makes the same change of the row.
    pub guarded_change-Agreement :
        (q : Tables × Result Job)
        → UpdatesOne i (λ r. w r.status) g c t q
        → Agreement env (guarded_change w f m (job_at i m)) (acknowledged note q)
    guarded_change-Agreement (t', ok r') (r, there, passes, it, rows) =
        let (j, here, s) =
          SameAt-pair (job_at i m) r (subst (λ p. SameAt env (job_at i m) p) there (agrees.0 i)) in
        let opened : w j.status ≡ true = ap w s.1.0 ∙ passes in
        let at_i : j.id ≡ i = (==_iff j.id i).0 (find-passes (is_job i) m.jobs j here) in
        let valid : IsValidJob r = All-find IsValidJob (has_id i) t.jobs r v.rows there in
        let after : Same env (f j) r' =
          subst (Same env (f j)) (sym it) (step j r s passes there valid) in
        let changed : guarded_change w f m (job_at i m) ≡ (change_job i f m, done) =
          rw (here, opened, at_i) refl in
        subst (λ p. Agreement env p (t', Outcome.done)) (sym changed)
          (change-Agrees i f m j r' t t' agrees same here after rows, tt)
    guarded_change-Agreement (t', no_rows) (unchanged, closed, u) =
        let (e, it) = refuses (job_at i m) (get i t) (agrees.0 i) closed in
        subst (λ p. Agreement env p (acknowledged {A = Job} note (t', no_rows))) (sym it)
          (subst (Agrees env m) (sym unchanged) agrees, tt)
    guarded_change-Agreement (t', failure) (unchanged, down) = absurd (cc (up, down))
