-- ===== src/Server/Running.antt =====
-- The bulk handlers and the rounds of the workers of internal/server/server.go do nothing to the
-- tables but run statements of the server.
use executr.Prelude.{
  ℕ, suc, ◌≡◌, ◌==◌, ltb, Bool, true, false, not, ◌||◌, Option, none, some, List, [], ◌∷◌, length,
  is_empty, if◌then◌else◌, String, to_int32,
}
use mathlib.Core.Path.{subst}
use executr.Models.{UuidNumber, JobSubmission}
use executr.Store.Row.{Job, Tables, Context, Result, ok, no_rows, failure}
use executr.Store.Jobs
use executr.Store.Jobs.{find_stale_jobs, reset_stale_job}
use executr.Store.Statement.{Statement, exec, run}
use executr.Server.Http.{Method}
use executr.Server.Convert.{EnvJson}
use executr.Server.Jobs.{incomplete, create_params}
use executr.Server.Bulk.{
  CancelRequest, handle_bulk_jobs, handle_bulk_cancel, cancel_all, counted, submit_item, submit_all,
}
use executr.Server.Workers.{Others, for_each, over_rows}
use executr.Server.Statements.{Runs, no_statement, one_statement, these_statements, and_then}

if-Runs :
    {A : Type 0} (t : Tables) (b : Bool) (p q : Tables × A)
    → Runs t p.0
    → Runs t q.0
    → Runs t (if b then p else q).0
if-Runs t true p q hp hq = hp
if-Runs t false p q hp hq = hq

module _ (json : EnvJson) (message : String) (cs : ℕ → Context) where
  submit_item-Runs :
      (i : ℕ) (s : JobSubmission) (t : Tables) → Runs t (submit_item json message i s (cs i) t).0
  unfolding submit_item exec
  submit_item-Runs i s t = if-Runs t (incomplete s) _ _ (no_statement t) (
      one_statement
        (Statement.create_job_with_retries
          (record { job = create_params json s; max_retries = to_int32 s.max_retries }))
        (cs i) t)

  submit_all-Runs :
      (i : ℕ) (ss : List JobSubmission) (t : Tables) → Runs t (submit_all json message cs i ss t).0
  unfolding submit_all
  submit_all-Runs i [] t = no_statement t
  submit_all-Runs i (s ∷ ss) t =
      and_then (submit_item-Runs i s t)
        (submit_all-Runs (suc i) ss (submit_item json message i s (cs i) t).0)

pub bulk_jobs-Runs :
    (json : EnvJson) (message : String) (m : Method) (body : Option (List JobSubmission))
    (cs : ℕ → Context) (t : Tables)
    → Runs t (handle_bulk_jobs json message m body cs t).0
unfolding handle_bulk_jobs
bulk_jobs-Runs json message Method.post none cs t = no_statement t
bulk_jobs-Runs json message Method.post (some ss) cs t =
    if-Runs t (length ss == 0) _ _ (no_statement t) (
      if-Runs t (ltb 100 (length ss)) _ _ (no_statement t) (submit_all-Runs json message cs 0 ss t))
bulk_jobs-Runs json message _ body cs t = no_statement t

cancel_all-Runs :
    (cs : ℕ → Context) (n : ℕ) (is : List (Option UuidNumber)) (t : Tables) (count : ℕ × ℕ)
    → Runs t (cancel_all cs n is t count).0
unfolding cancel_all exec
cancel_all-Runs cs n [] t count = no_statement t
cancel_all-Runs cs n (none ∷ is) t (cancelled, failed) =
    cancel_all-Runs cs (suc n) is t (cancelled, suc failed)
cancel_all-Runs cs n (some i ∷ is) t count =
    let r : Tables × Result Job = Jobs.cancel_job i (cs n) t in
    and_then (one_statement (Statement.cancel_job i) (cs n) t)
      (cancel_all-Runs cs (suc n) is r.0 (counted r.1 count))

pub bulk_cancel-Runs :
    (m : Method) (body : Option CancelRequest) (cs : ℕ → Context) (t : Tables)
    → Runs t (handle_bulk_cancel m body cs t).0
unfolding handle_bulk_cancel
bulk_cancel-Runs Method.post none cs t = no_statement t
bulk_cancel-Runs Method.post (some r) cs t =
    if-Runs t (ltb 0 (length r.job_ids)) _ _ (cancel_all-Runs cs 0 r.job_ids t (0, 0)) (
      if-Runs t (not (is_empty r.job_type) || not (is_empty r.status)) _ _ (no_statement t)
        (no_statement t))
bulk_cancel-Runs _ body cs t = no_statement t

-- A round of a worker whose statement on an id is `s`, whatever others run in between.
module _ (s : UuidNumber → Statement)
    (statement : UuidNumber → Context → Tables → Tables × Result (Unit {0}))
    (same : (i : UuidNumber) (c : Context) (t : Tables) → exec (s i) c t ≡ (statement i c t).0)
    (cs : ℕ → Context) (others : Others) where
  for_each-Runs :
      (n : ℕ) (js : List Job) (t : Tables) → Runs t (for_each statement cs others n js t)
  unfolding for_each
  for_each-Runs n [] t = no_statement t
  for_each-Runs n (j ∷ js) t =
      let t' : Tables = run (others n) t in
      let now : Runs t' (statement j.id (cs n) t').0 =
        subst (Runs t') (same j.id (cs n) t') (one_statement (s j.id) (cs n) t') in
      and_then (these_statements (others n) t)
        (and_then now (for_each-Runs (suc n) js (statement j.id (cs n) t').0))

  pub over_rows-Runs :
      (o : Result (List Job)) (t : Tables) → Runs t (over_rows statement cs others o t)
  over_rows-Runs (ok js) t = for_each-Runs 0 js t
  over_rows-Runs no_rows t = no_statement t
  over_rows-Runs failure t = no_statement t
