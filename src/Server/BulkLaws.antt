-- ===== src/Server/BulkLaws.antt =====
-- The bulk handlers: the report agrees with what was done.
use executr.Prelude.{
  ℕ, suc, ◌+◌, ◌-◌, ◌≤◌, ◌<◌, ◌==◌, ltb, ◌≡◌, ◌↔◌, ap, refl, sym, ℤ, String, false, Option, none,
  some, List, [], ◌∷◌, arith, length, Bool-cases, inl, inr, any, to_int32,
}
use mathlib.Core.Path.{subst}
use executr.Models.{JobSubmission, Priority}
use executr.Store.Row.{
  Job, Tables, Context, Result, ok, no_rows, failure, guarded_up, guarded_down, has_id,
}
use executr.Store.Jobs.{CreateJobParams, insert_with, check_priority}
use executr.Store.Retry.{create_job_with_retries, CreateJobWithRetriesParams}
use executr.Server.Http.{BulkResult, Response, Method, bulk}
use executr.Server.Convert.{EnvJson}
use executr.Server.Jobs.{incomplete, create_params}
use executr.Server.Bulk.{
  handle_bulk_jobs, created_item, bulk_status, successes, submit_item, submit_all,
}

-- One row more if the answer is success, none otherwise.
abbrev pub AddsRow : ℕ → Tables × Result Job → Type 0
AddsRow n (t', ok j) = length t'.jobs ≡ suc n
AddsRow n (t', no_rows) = length t'.jobs ≡ n
AddsRow n (t', failure) = length t'.jobs ≡ n

insert_with-AddsRow :
    (o : Option Priority) (p : CreateJobParams) (m : ℤ) (c : Context) (t : Tables)
    → AddsRow (length t.jobs) (insert_with o p m c t)
insert_with-AddsRow none p m c t = refl
insert_with-AddsRow (some q) p m c t = elim (Bool-cases (any (has_id c.fresh) t.jobs)) [
  | inl e ↦ rw e
  | inr e ↦ rw e
]

create-AddsRow :
    (p : CreateJobWithRetriesParams) (c : Context) (t : Tables)
    → AddsRow (length t.jobs) (create_job_with_retries p c t)
unfolding create_job_with_retries
create-AddsRow p c t =
    let q : Tables × Result Job =
      insert_with (check_priority p.job.priority) p.job p.max_retries c t in
    elim (Bool-cases c.up) [
      | inl u ↦
          subst (AddsRow (length t.jobs)) (sym (guarded_up c t q u))
            (insert_with-AddsRow (check_priority p.job.priority) p.job p.max_retries c t)
      | inr u ↦ subst (AddsRow (length t.jobs)) (sym (guarded_down c t q u)) refl
    ]

item_rows :
    (i : ℕ) (message : String) (n : ℕ) (q : Tables × Result Job)
    → AddsRow n q
    → length q.0.jobs ≡ n + successes (created_item i message q.1 ∷ [])
item_rows i message n (t', ok j) h = omega arith
item_rows i message n (t', no_rows) h = omega arith
item_rows i message n (t', failure) h = omega arith

module _ (json : EnvJson) (message : String) (cs : ℕ → Context) where
  submit_item-rows :
      (i : ℕ) (s : JobSubmission) (t : Tables)
      → let (t', r) = submit_item json message i s (cs i) t in
        length t'.jobs ≡ length t.jobs + successes (r ∷ [])
  unfolding submit_item
  submit_item-rows i s t = elim (Bool-cases (incomplete s)) [
    | inl e ↦ rw e (omega arith)
    | inr e ↦
        let p : CreateJobWithRetriesParams = record {
          job = create_params json s;
          max_retries = to_int32 s.max_retries;
        } in
        rw e (
          item_rows i message (length t.jobs) (create_job_with_retries p (cs i) t)
            (create-AddsRow p (cs i) t))
  ]

  -- The loop answers one entry for each submission, and adds one row for each entry of success.
  pub submit_all_lem :
      (i : ℕ) (ss : List JobSubmission) (t : Tables)
      → let (t', rs) = submit_all json message cs i ss t in
        (length rs ≡ length ss)
        × (length t'.jobs ≡ length t.jobs + successes rs)
        × (successes rs ≤ length ss)
  unfolding submit_all
  submit_all_lem i [] t = (refl, omega arith, omega arith)
  submit_all_lem i (s ∷ ss) t =
      let (t', r) = submit_item json message i s (cs i) t in
      let ih = submit_all_lem (suc i) ss t' in
      let one = submit_item-rows i s t in (ap suc ih.0, ground (arith, one, ih), ground (arith, ih))

bulk_status_lem :
    (done total : ℕ)
    → 0 < total
    → done ≤ total
    → ((bulk_status done total ≡ 201) ↔ (done ≡ total))
      × ((bulk_status done total ≡ 206) ↔ ((0 < done) × (done < total)))
      × ((bulk_status done total ≡ 400) ↔ (done ≡ 0))
bulk_status_lem done total h k = ground arith

-- What a bulk submission answers and does, for the entries `rs` of its report.
pub record Reports (ss : List JobSubmission) (t t' : Tables) (r : Response) (rs : List BulkResult)
    : Type 0 where
  pub body : r.body ≡ bulk (length ss) (successes rs) (length ss - successes rs) rs
  pub entries : length rs ≡ length ss
  pub rows : length t'.jobs ≡ length t.jobs + successes rs
  pub all : (r.status ≡ 201) ↔ (successes rs ≡ length ss)
  pub some_only : (r.status ≡ 206) ↔ ((0 < successes rs) × (successes rs < length ss))
  pub none_at_all : (r.status ≡ 400) ↔ (successes rs ≡ 0)

-- A bulk submission of 1 to 100 jobs answers with one entry for each job, counts the entries of
-- success and of failure right, and has added exactly as many rows as it reports successes. The
-- status is 201 exactly when all jobs were created, 206 exactly when some were and some not, and
-- 400 exactly when none was.
pub handle_bulk_jobs-Reports :
    (json : EnvJson) (message : String) (cs : ℕ → Context) (ss : List JobSubmission) (t : Tables)
    → 0 < length ss
    → length ss ≤ 100
    → let (t', r) = handle_bulk_jobs json message Method.post (some ss) cs t in
      (rs : List BulkResult) × Reports ss t t' r rs
unfolding handle_bulk_jobs
handle_bulk_jobs-Reports json message cs ss t h k =
    let (t', rs) = submit_all json message cs 0 ss t in
    let laws = submit_all_lem json message cs 0 ss t in
    let some_jobs : (length ss == 0) ≡ false = ground arith in
    let few_jobs : ltb 100 (length ss) ≡ false = ground arith in
    let status = bulk_status_lem (successes rs) (length ss) h laws.2 in
    (
      rs,
      rw (some_jobs, few_jobs)
          (record {
            body = refl;
            entries = laws.0;
            rows = laws.1;
            all = status.0;
            some_only = status.1;
            none_at_all = status.2;
          }),
    )
