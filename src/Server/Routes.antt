-- ===== src/Server/Routes.antt =====
-- `setupRoutes` of internal/server/server.go: every pattern of the server with its handler. The page
-- of the metrics is Prometheus's, and is given.
use executr.Prelude.{ℕ, String, Bool, Option, none, some, List, [], ◌∷◌, Bytes, ascii}
use executr.Models.{Instant, JobSubmission}
use executr.Store.Row.{Tables, Context}
use executr.Server.Http.{Response}
use executr.Server.Bulk.{CancelRequest, handle_bulk_jobs, handle_bulk_cancel}
use executr.Server.Admin.{Gauges, handle_admin_stats, handle_admin_executors}
use executr.Server.Startup.{handle_health}
use executr.Server.Routing.{Codec, Request, Endpoint, serve}

pub data Route : Type 0 where
  metrics health : Route
  job_api : Endpoint → Route
  bulk_jobs bulk_cancel : Route
  admin_stats admin_executors : Route

abbrev pub routes : List (Bytes × Route)
routes =
    (ascii "/api/v1/metrics", metrics)
    ∷ (ascii "/api/v1/health", health)
    ∷ (ascii "/api/v1/jobs", job_api Endpoint.jobs)
    ∷ (ascii "/api/v1/jobs/", job_api Endpoint.job_by_id)
    ∷ (ascii "/api/v1/jobs/claim", job_api Endpoint.claim)
    ∷ (ascii "/api/v1/jobs/bulk", bulk_jobs)
    ∷ (ascii "/api/v1/jobs/bulk/cancel", bulk_cancel)
    ∷ (ascii "/api/v1/admin/stats", admin_stats)
    ∷ (ascii "/api/v1/admin/executors", admin_executors)
    ∷ []

-- What the libraries read of the bodies, the text of a database error, and the page of the metrics.
pub record Libraries : Type 0 where
  pub codec : Codec
  pub decode_submissions : Bytes → Option (List JobSubmission)
  pub decode_cancellation : Bytes → Option CancelRequest
  pub database_error : String
  pub metrics_page : Response

-- What one request meets: the contexts of its statements, the tables that the queries of the
-- statistics see, the time, and whether a ping is answered.
pub record Surroundings : Type 0 where
  pub contexts : ℕ → Context
  pub seen : ℕ → Tables
  pub now : Instant
  pub pinged : Bool

abbrev pub Served : Type 0
Served = (Tables × Gauges) × Response

abbrev pub with_gauges : Gauges → Tables × Response → Served
with_gauges g (t, r) = ((t, g), r)

abbrev pub with_tables : Tables → Gauges × Response → Served
with_tables t (g, r) = ((t, g), r)

abbrev pub served_job : Gauges → Option (Tables × Response) → Option Served
served_job g none = none
served_job g (some p) = some (with_gauges g p)

-- `none` where the handler panics.
unfoldable pub serve_route :
    Libraries → Route → Request → Surroundings → Tables → Gauges → Option Served
serve_route l metrics r w t g = some ((t, g), l.metrics_page)
serve_route l health r w t g = some ((t, g), handle_health r.method w.pinged)
serve_route l (job_api e) r w t g = served_job g (serve l.codec e r (w.contexts 0) (w.contexts 1) t)
serve_route l bulk_jobs r w t g = some (
    with_gauges g (
      handle_bulk_jobs l.codec.env l.database_error r.method (l.decode_submissions r.body)
        w.contexts t))
serve_route l bulk_cancel r w t g =
    some (with_gauges g (handle_bulk_cancel r.method (l.decode_cancellation r.body) w.contexts t))
serve_route l admin_stats r w t g =
    some (with_tables t (handle_admin_stats r.method w.contexts w.seen w.now g))
serve_route l admin_executors r w t g =
    some ((t, g), handle_admin_executors r.method (w.contexts 0) t)
