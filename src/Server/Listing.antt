-- ===== src/Server/Listing.antt =====
-- Listings without filters, of handleListJobs in internal/server/server.go.
use executr.Prelude.{
  ◌≡◌, ◌⊎◌, ap, refl, inl, inr, false, str_eq, none, [], keep, arith, sort_by, true, keep_nothing,
  All-always,
}
use executr.Models.{
  Priority, foreground, background, best_effort, Status, pending, running, completed, failed,
  cancelled, status_text, priority_text,
}
use executr.Store.Row.{Job, Tables, Context}
use executr.Store.Jobs.{ListJobsParams, list_jobs, listed}
use executr.Server.Http.{respond, jobs}
use executr.Server.Convert.{EnvJson}
use executr.Server.Jobs.{ListQuery, handle_list_jobs, limit_of, offset_of}

status-named : (s : Status) → str_eq (status_text s) "" ≡ false
status-named pending = refl
status-named running = refl
status-named completed = refl
status-named failed = refl
status-named cancelled = refl

priority-named : (p : Priority) → str_eq (priority_text p) "" ≡ false
priority-named foreground = refl
priority-named background = refl
priority-named best_effort = refl

none_listed :
    (p : ListJobsParams) (j : Job) → (p.status ≡ "") ⊎ (p.priority ≡ "") → listed p j ≡ false
none_listed p j (inl e) = rw (e, status-named j.status) refl
none_listed p j (inr e) =
    ground (arith, priority-named j.priority, ap (str_eq (priority_text j.priority)) e)

-- A request for a listing that leaves the status or the priority open, and gives no limit and no
-- offset, is answered with the empty list, whatever jobs there are: a filter that is left out is
-- the empty text, and not the NULL that the query takes for no filter.
pub unfiltered_empty :
    (json : EnvJson) (q : ListQuery) (c : Context) (t : Tables)
    → (q.status ≡ "") ⊎ (q.priority ≡ "")
    → q.limit ≡ none
    → q.offset ≡ none
    → c.up ≡ true
    → handle_list_jobs json q c t ≡ respond 200 (jobs [])
unfolding handle_list_jobs list_jobs sort_by
unfiltered_empty json q c t missing limit offset up =
    let p : ListJobsParams = record {
      status = q.status;
      job_type = q.job_type;
      priority = q.priority;
      limit = limit_of q.limit;
      offset = offset_of q.offset;
    } in
    let none_kept : keep (listed p) t.jobs ≡ [] =
      keep_nothing (listed p) t.jobs (All-always _ t.jobs (λ j. none_listed p j missing)) in
    rw (up, none_kept, ap limit_of limit, ap offset_of offset) refl
