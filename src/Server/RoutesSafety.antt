-- ===== src/Server/RoutesSafety.antt =====
-- What every route of internal/server/server.go guarantees, the bulk handlers and the statistics
-- included.
use executr.Prelude.{ℕ, ◌<◌, ◌≡◌, ◌⊎◌, refl, Option, none, some, List, arith, inl, inr}
use executr.Models.{Instant, Status, Priority}
use executr.Store.Row.{Tables, Context, Result, ok, no_rows, failure}
use executr.Store.Stats.{
  ActiveExecutor, count_jobs_by_status, count_pending_jobs_by_priority, get_active_executors,
}
use executr.Lifecycle.Tables.{IsValid}
use executr.Server.Http.{Method, Response}
use executr.Server.Bulk.{handle_bulk_jobs, handle_bulk_cancel}
use executr.Server.Admin.{Gauges, stats_answer, handle_admin_stats}
use executr.Server.Routing.{Request, serve}
use executr.Server.Dispatch.{SafeAnswer, serve_safe}
use executr.Server.Routes.{
  Route, metrics, health, job_api, bulk_jobs, bulk_cancel, admin_stats, admin_executors, Libraries,
  Surroundings, Served, with_gauges, with_tables, served_job, serve_route,
}
use executr.Server.BulkSafety.{SafeTables, bulk_jobs_safe, bulk_cancel_safe}

-- A response to a request, if there is one, belongs to tables in order, and is a success or has
-- changed neither the tables nor the gauges.
abbrev pub SafeServed : Tables → Gauges → Option Served → Type 0
SafeServed t g none = Unit {0}
SafeServed t g (some ((t', g'), r)) = IsValid t' × ((r.status < 400) ⊎ ((t' ≡ t) × (g' ≡ g)))

module _ (t : Tables) (g : Gauges) where
  tables_safe : (p : Tables × Response) → SafeTables t p → SafeServed t g (some (with_gauges g p))
  tables_safe (t', r) (v, inl k) = (v, inl k)
  tables_safe (t', r) (v, inr e) = (v, inr (e, refl))

  job_safe : (o : Option (Tables × Response)) → SafeAnswer t o → SafeServed t g (served_job g o)
  job_safe none h = tt
  job_safe (some p) h = tables_safe p h

  stats_safe :
      (ss : Result (List (Status × ℕ))) (ps : Result (List (Priority × ℕ)))
      (es : Result (List ActiveExecutor)) (now : Instant)
      → let (g', r) = stats_answer ss ps es now g in (r.status < 400) ⊎ (g' ≡ g)
  stats_safe (ok ss) (ok ps) es now = inl (omega arith)
  stats_safe (ok ss) no_rows es now = inr refl
  stats_safe (ok ss) failure es now = inr refl
  stats_safe no_rows ps es now = inr refl
  stats_safe failure ps es now = inr refl

  gauges_safe :
      (p : Gauges × Response)
      → IsValid t
      → (p.1.status < 400) ⊎ (p.0 ≡ g)
      → SafeServed t g (some (with_tables t p))
  gauges_safe (g', r) v (inl k) = (v, inl k)
  gauges_safe (g', r) v (inr e) = (v, inr (refl, e))

  admin_stats_safe :
      (m : Method) (cs : ℕ → Context) (ts : ℕ → Tables) (now : Instant)
      → let (g', r) = handle_admin_stats m cs ts now g in (r.status < 400) ⊎ (g' ≡ g)
  unfolding handle_admin_stats
  admin_stats_safe Method.get cs ts now =
      stats_safe (count_jobs_by_status (cs 0) (ts 0)) (count_pending_jobs_by_priority (cs 1) (ts 1))
        (get_active_executors (cs 2) (ts 2)) now
  admin_stats_safe _ cs ts now = inr refl

-- Whatever the route, the method, the path and the body of a request to the server, and whatever
-- the database answers, the response, if there is one, comes with tables that satisfy the
-- invariant where the tables before did, and has a status below 400 or has changed neither the
-- tables nor the gauges.
pub serve_route_safe :
    (l : Libraries) (route : Route) (r : Request) (w : Surroundings) (t : Tables) (g : Gauges)
    → IsValid t
    → SafeServed t g (serve_route l route r w t g)
unfolding serve_route
serve_route_safe l metrics r w t g v = (v, inr (refl, refl))
serve_route_safe l health r w t g v = (v, inr (refl, refl))
serve_route_safe l (job_api e) r w t g v =
    job_safe t g (serve l.codec e r (w.contexts 0) (w.contexts 1) t)
      (serve_safe l.codec e r (w.contexts 0) (w.contexts 1) t v)
serve_route_safe l bulk_jobs r w t g v =
    tables_safe t g
      (handle_bulk_jobs l.codec.env l.database_error r.method (l.decode_submissions r.body)
        w.contexts t)
      (bulk_jobs_safe l.codec.env l.database_error r.method (l.decode_submissions r.body) w.contexts
        t v)
serve_route_safe l bulk_cancel r w t g v =
    tables_safe t g (handle_bulk_cancel r.method (l.decode_cancellation r.body) w.contexts t)
      (bulk_cancel_safe r.method (l.decode_cancellation r.body) w.contexts t v)
serve_route_safe l admin_stats r w t g v =
    gauges_safe t g (handle_admin_stats r.method w.contexts w.seen w.now g) v
      (admin_stats_safe t g r.method w.contexts w.seen w.now)
serve_route_safe l admin_executors r w t g v = (v, inr (refl, refl))
