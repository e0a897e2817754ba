-- ===== src/Server/BulkSafety.antt =====
-- The bulk handlers of internal/server/server.go keep the invariant of the tables, and an answer
-- that is an error has changed nothing.
use executr.Prelude.{
  ℕ, suc, ◌+◌, ◌==◌, ltb, ◌<◌, ◌≡◌, ◌⊎◌, refl, ◌∙◌, Bool, true, false, not, ◌||◌, Option, none,
  some, List, [], ◌∷◌, arith, length, Bool-cases, inl, inr, is_empty, to_int32, String,
  if◌then◌else◌,
}
use executr.Models.{UuidNumber, JobSubmission}
use executr.Store.Row.{Job, Tables, Context, Result, ok, no_rows, failure}
use executr.Store.Jobs
use executr.Store.Retry.{create_job_with_retries, CreateJobWithRetriesParams}
use executr.Store.Jobs.{check_priority}
use executr.Store.Statement
use executr.Store.Statement.{exec}
use executr.Lifecycle.Tables.{IsValid}
use executr.Lifecycle.Reachable.{exec-IsValid}
use executr.Server.Http.{Method, Response, BulkResult}
use executr.Server.Convert.{EnvJson}
use executr.Server.Jobs.{incomplete, create_params}
use executr.Server.Effects.{Keeps, guarded-Keeps, insert_with-Keeps}
use executr.Server.Bulk.{
  CancelRequest, handle_bulk_jobs, handle_bulk_cancel, created_item, bulk_response, cancel_all,
  counted, successes, submit_item, submit_all,
}

create-Keeps :
    (p : CreateJobWithRetriesParams) (c : Context) (t : Tables)
    → Keeps t (create_job_with_retries p c t)
unfolding create_job_with_retries
create-Keeps p c t =
    guarded-Keeps c t _ (insert_with-Keeps (check_priority p.job.priority) p.job p.max_retries c t)

-- Tables in order, and the same as before where nothing has succeeded.
abbrev pub Submitted : Tables → Tables → ℕ → Type 0
Submitted t t' n = IsValid t' × (n ≡ 0 → t' ≡ t)

created-Submitted :
    (i : ℕ) (message : String) (t : Tables) (q : Tables × Result Job)
    → IsValid q.0
    → Keeps t q
    → Submitted t q.0 (successes (created_item i message q.1 ∷ []))
created-Submitted i message t (t', ok j) v k = (v, λ h. absurd (omega (arith, h)))
created-Submitted i message t (t', no_rows) v k = (v, λ h. k)
created-Submitted i message t (t', failure) v k = (v, λ h. k)

successes-cons :
    (r : BulkResult) (rs : List BulkResult) → successes (r ∷ rs) ≡ successes (r ∷ []) + successes rs
successes-cons r rs = ground arith

module _ (json : EnvJson) (message : String) (cs : ℕ → Context) where
  submit_item-Submitted :
      (i : ℕ) (s : JobSubmission) (t : Tables)
      → IsValid t
      → let (t', r) = submit_item json message i s (cs i) t in Submitted t t' (successes (r ∷ []))
  unfolding submit_item exec
  submit_item-Submitted i s t v = elim (Bool-cases (incomplete s)) [
    | inl e ↦ rw e (v, λ h. refl)
    | inr e ↦
        let p : CreateJobWithRetriesParams = record {
          job = create_params json s;
          max_retries = to_int32 s.max_retries;
        } in
        rw e (
          created-Submitted i message t (create_job_with_retries p (cs i) t)
            (exec-IsValid (Statement.create_job_with_retries p) (cs i) t v)
            (create-Keeps p (cs i) t))
  ]

  submit_all-Submitted :
      (i : ℕ) (ss : List JobSubmission) (t : Tables)
      → IsValid t
      → let (t', rs) = submit_all json message cs i ss t in Submitted t t' (successes rs)
  unfolding submit_all
  submit_all-Submitted i [] t v = (v, λ h. refl)
  submit_all-Submitted i (s ∷ ss) t v =
      let (t', r) = submit_item json message i s (cs i) t in
      let rs : List BulkResult = (submit_all json message cs (suc i) ss t').1 in
      let one = submit_item-Submitted i s t v in
      let rest = submit_all-Submitted (suc i) ss t' one.0 in
      let sum = successes-cons r rs in
      (rest.0, λ h. rest.1 (omega (arith, sum, h)) ∙ one.1 (omega (arith, sum, h)))

cancel_all-IsValid :
    (cs : ℕ → Context) (n : ℕ) (is : List (Option UuidNumber)) (t : Tables) (count : ℕ × ℕ)
    → IsValid t
    → IsValid (cancel_all cs n is t count).0
unfolding cancel_all exec
cancel_all-IsValid cs n [] t count v = v
cancel_all-IsValid cs n (none ∷ is) t (cancelled, failed) v =
    cancel_all-IsValid cs (suc n) is t (cancelled, suc failed) v
cancel_all-IsValid cs n (some i ∷ is) t count v =
    let r : Tables × Result Job = Jobs.cancel_job i (cs n) t in
    cancel_all-IsValid cs (suc n) is r.0 (counted r.1 count)
      (exec-IsValid (Statement.cancel_job i) (cs n) t v)

-- Tables in order, and an answer that is a success or has changed nothing.
abbrev pub SafeTables : Tables → Tables × Response → Type 0
SafeTables t p = IsValid p.0 × ((p.1.status < 400) ⊎ (p.0 ≡ t))

if-SafeTables :
    (t : Tables) (b : Bool) (p q : Tables × Response)
    → SafeTables t p
    → SafeTables t q
    → SafeTables t (if b then p else q)
if-SafeTables t true p q hp hq = hp
if-SafeTables t false p q hp hq = hq

bulk_response_safe :
    (n : ℕ) (t : Tables) (p : Tables × List BulkResult)
    → Submitted t p.0 (successes p.1)
    → SafeTables t (bulk_response n p)
bulk_response_safe n t (t', rs) s = (
  s.0,
  elim (Bool-cases (successes rs == 0)) [
    | inl e ↦ inr (s.1 (ground (arith, e)))
    | inr e ↦ inl (rw e (ground arith))
  ],
)

pub bulk_jobs_safe :
    (json : EnvJson) (message : String) (m : Method) (body : Option (List JobSubmission))
    (cs : ℕ → Context) (t : Tables)
    → IsValid t
    → SafeTables t (handle_bulk_jobs json message m body cs t)
unfolding handle_bulk_jobs
bulk_jobs_safe json message Method.post none cs t v = (v, inr refl)
bulk_jobs_safe json message Method.post (some ss) cs t v =
    if-SafeTables t (length ss == 0) _ _ (v, inr refl)
      (if-SafeTables t (ltb 100 (length ss)) _ _ (v, inr refl)
        (bulk_response_safe (length ss) t (submit_all json message cs 0 ss t)
          (submit_all-Submitted json message cs 0 ss t v)))
bulk_jobs_safe json message _ body cs t v = (v, inr refl)

pub bulk_cancel_safe :
    (m : Method) (body : Option CancelRequest) (cs : ℕ → Context) (t : Tables)
    → IsValid t
    → SafeTables t (handle_bulk_cancel m body cs t)
unfolding handle_bulk_cancel
bulk_cancel_safe Method.post none cs t v = (v, inr refl)
bulk_cancel_safe Method.post (some r) cs t v =
    if-SafeTables t (ltb 0 (length r.job_ids)) _ _
      (cancel_all-IsValid cs 0 r.job_ids t (0, 0) v, inl (omega arith))
      (if-SafeTables t (not (is_empty r.job_type) || not (is_empty r.status)) _ _ (v, inr refl)
        (v, inr refl))
bulk_cancel_safe _ body cs t v = (v, inr refl)
