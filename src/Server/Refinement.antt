-- ===== src/Server/Refinement.antt =====
-- The server of internal/server/server.go does nothing to its tables but run its statements, so what
-- holds of every run of statements holds of the server.
use executr.Prelude.{ℤ, refl, Option, none, some, List, [], ◌∷◌}
use mathlib.Core.Path.{subst}
use executr.Store.Row.{Tables}
use executr.Store.Jobs.{find_stale_jobs, reset_stale_job}
use executr.Store.Retry.{increment_job_retry, get_retriable_jobs}
use executr.Store.Statement.{Statement, exec}
use executr.Lifecycle.Tables.{IsValid}
use executr.Lifecycle.Reachable.{run-IsValid}
use executr.Server.Http.{Response}
use executr.Server.Workers.{check_stale_jobs, cleanup, retention_interval, retry_failed_jobs}
use executr.Server.Admin.{Gauges}
use executr.Server.Routing.{Request, serve}
use executr.Server.Dispatch.{EffectIf, serve-Effect}
use executr.Server.Routes.{
  Libraries, Route, Surroundings, metrics, health, job_api, bulk_jobs, bulk_cancel, admin_stats,
  admin_executors, served_job, serve_route,
}
use executr.Server.Statements.{Runs, no_statement, one_statement, and_then, Effect-Runs}
use executr.Server.System.{
  ServerEvent, request, heartbeat_tick, cleaner_tick, retry_tick, after, on_event, on_events,
}
use executr.Server.Running.{bulk_jobs-Runs, bulk_cancel-Runs, over_rows-Runs}

Runs-IsValid : {t t' : Tables} → Runs t t' → IsValid t → IsValid t'
Runs-IsValid {t} p v = subst IsValid p.leads (run-IsValid p.statements t v)

job-Runs :
    (t : Tables) (g : Gauges) (o : Option (Tables × Response))
    → EffectIf t o
    → Runs t (after t g (served_job g o)).0
job-Runs t g none h = no_statement t
job-Runs t g (some p) h = Effect-Runs h

module _ (l : Libraries) (job_retention : ℤ) (t : Tables) (g : Gauges) (v : IsValid t) where
  route-Runs :
      (route : Route) (r : Request) (w : Surroundings)
      → Runs t (after t g (serve_route l route r w t g)).0
  unfolding serve_route
  route-Runs metrics r w = no_statement t
  route-Runs health r w = no_statement t
  route-Runs (job_api e) r w =
      job-Runs t g (serve l.codec e r (w.contexts 0) (w.contexts 1) t)
        (serve-Effect l.codec (w.contexts 0) (w.contexts 1) t v e r)
  route-Runs bulk_jobs r w =
      bulk_jobs-Runs l.codec.env l.database_error r.method (l.decode_submissions r.body) w.contexts
        t
  route-Runs bulk_cancel r w = bulk_cancel-Runs r.method (l.decode_cancellation r.body) w.contexts t
  route-Runs admin_stats r w = no_statement t
  route-Runs admin_executors r w = no_statement t

  event-Runs : (e : ServerEvent) → Runs t (on_event l job_retention e t g).0
  unfolding on_event check_stale_jobs retry_failed_jobs cleanup exec
  event-Runs (request route r w) = route-Runs route r w
  event-Runs (heartbeat_tick c cs others) =
      over_rows-Runs Statement.reset_stale_job reset_stale_job (λ i c t. refl) cs others
        (find_stale_jobs c t) t
  event-Runs (cleaner_tick c) =
      one_statement (Statement.cleanup_old_jobs (retention_interval job_retention)) c t
  event-Runs (retry_tick c cs others) =
      over_rows-Runs Statement.increment_job_retry increment_job_retry (λ i c t. refl) cs others
        (get_retriable_jobs c t) t

-- Whatever requests the server serves and whenever its workers tick, with whatever failures of the
-- database, its tables are those of a run of its statements: from tables that satisfy the
-- invariant, the events lead to the tables to which some sequence of statements leads, and these
-- satisfy the invariant.
pub on_events-Runs :
    (l : Libraries) (job_retention : ℤ) (es : List ServerEvent) (t : Tables) (g : Gauges)
    → IsValid t
    → let (t', g') = on_events l job_retention es t g in Runs t t' × IsValid t'
unfolding on_events
on_events-Runs l job_retention [] t g v = (no_statement t, v)
on_events-Runs l job_retention (e ∷ es) t g v =
    let (t', g') = on_event l job_retention e t g in
    let now = event-Runs l job_retention t g v e in
    let rest = on_events-Runs l job_retention es t' g' (Runs-IsValid now v) in
    (and_then now rest.0, rest.1)
