-- ===== src/Server/System.antt =====
-- The running server of internal/server/server.go: the requests that it serves and the ticks of its
-- three workers, in the order in which they come. Other
-- statements come between those of a round, but not between those of one request.
use executr.Prelude.{ℕ, ℤ, Option, none, some, List, [], ◌∷◌}
use executr.Store.Row.{Tables, Context}
use executr.Server.Admin.{Gauges}
use executr.Server.Routing.{Request}
use executr.Server.Routes.{Libraries, Route, Surroundings, Served, serve_route}
use executr.Server.Workers.{Others, check_stale_jobs, cleanup, retry_failed_jobs}

-- A tick has the contexts of the round that it starts, and what others do between its statements.
pub data ServerEvent : Type 0 where
  request : Route → Request → Surroundings → ServerEvent
  heartbeat_tick : Context → (ℕ → Context) → Others → ServerEvent
  cleaner_tick : Context → ServerEvent
  retry_tick : Context → (ℕ → Context) → Others → ServerEvent

-- The handler that panics has run no statement; net/http recovers.
abbrev pub after : Tables → Gauges → Option Served → Tables × Gauges
after t g none = (t, g)
after t g (some (state, r)) = state

module _ (l : Libraries) (job_retention : ℤ) where
  unfoldable pub on_event : ServerEvent → Tables → Gauges → Tables × Gauges
  on_event (request route r w) t g = after t g (serve_route l route r w t g)
  on_event (heartbeat_tick c cs others) t g = (check_stale_jobs c cs others t, g)
  on_event (cleaner_tick c) t g = (cleanup job_retention c t, g)
  on_event (retry_tick c cs others) t g = (retry_failed_jobs c cs others t, g)

  unfoldable pub on_events : List ServerEvent → Tables → Gauges → Tables × Gauges
  on_events [] t g = (t, g)
  on_events (e ∷ es) t g = let (t', g') = on_event e t g in on_events es t' g'
