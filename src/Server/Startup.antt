-- ===== src/Server/Startup.antt =====
-- `Run`, `connectDB`, `runMigrations`, `startWorkers` and `handleHealth` of
-- internal/server/server.go. What PostgreSQL, the migration library and the sockets answer is an
-- argument.
use executr.Prelude.{
  ℕ, zero, suc, ℤ, pos, negsuc, Bool, true, false, not, Option, none, some, if◌then◌else◌,
}
use executr.Server.Http.{Method, Response, Health, health, respond, method_not_allowed}

-- What `m.Up` returns.
pub data Up : Type 0 where
  migrated no_change : Up
  up_failed : Up

-- How the server ends: the context, with the answer of Shutdown, or an error of the HTTP server.
pub data Stop : Type 0 where
  context_done : Bool → Stop
  serve_failed : Stop

pub record Platform : Type 0 where
  pub url_parsed : Bool
  pub pool_created : Bool
  pub pinged : Bool
  pub driver_made : Bool
  pub source_made : Bool
  pub migrator_made : Bool
  pub up : Up
  pub listener : Option ℕ
  pub stop : Stop

pub data Fault : Type 0 where
  bad_url no_pool no_ping : Fault
  no_driver no_source no_migrator not_migrated : Fault
  no_listener shutdown_failed server_failed : Fault

-- `ready` is whether the channel has been closed, which WaitReady waits for; `joined` whether the
-- workers have been waited for.
pub record Server : Type 0 where
  pub port : ℤ
  pub ready : Bool
  pub connected : Bool
  pub joined : Bool

abbrev pub new_server : Server
new_server = record { port = pos 0; ready = false; connected = false; joined = false }

-- `panicked` is the panic of a goroutine, which ends the program.
pub data Ran : Type 0 where
  panicked : Ran
  returned : Option Fault → Server → Ran

module _ (p : Platform) where
  unfoldable pub connect_db : Option Fault
  connect_db =
      if not p.url_parsed
      then some bad_url
      else if not p.pool_created
      then some no_pool
      else if not p.pinged
      then some no_ping
      else none

  abbrev pub after_up : Up → Option Fault
  after_up migrated = none
  after_up no_change = none
  after_up up_failed = some not_migrated

  unfoldable pub run_migrations : Option Fault
  run_migrations =
      if not p.driver_made
      then some no_driver
      else if not p.source_made
      then some no_source
      else if not p.migrator_made
      then some no_migrator
      else after_up p.up

  -- From the listener on. The pool is closed when Run returns.
  abbrev pub ends : Stop → Server → Ran
  ends (context_done true) s = returned none (record s { joined = true })
  ends (context_done false) s = returned (some shutdown_failed) s
  ends serve_failed s = returned (some server_failed) s

  -- `s.config.Port == 0` asks for any port.
  abbrev pub listen_on : Option ℕ → Server → Ran
  listen_on none s = returned (some no_listener) (record s { ready = true })
  listen_on (some n) s = ends p.stop (record s { port = pos n; ready = true })

  abbrev pub listen : ℤ → Server → Ran
  listen (pos zero) s = listen_on p.listener s
  listen (pos (suc n)) s = ends p.stop (record s { port = pos (suc n); ready = true })
  listen (negsuc n) s = ends p.stop (record s { port = negsuc n; ready = true })

  -- The heartbeat monitor ticks every 5 seconds and the retry worker every 30; the ticker of the
  -- cleaner panics unless its interval is positive.
  abbrev pub start_workers : ℤ → Bool
  start_workers (pos zero) = false
  start_workers (pos (suc n)) = true
  start_workers (negsuc n) = false

  abbrev pub migrated_run : ℤ → ℤ → Option Fault → Server → Ran
  migrated_run cleanup_interval port (some f) s = returned (some f) s
  migrated_run cleanup_interval port none s =
      if start_workers cleanup_interval then listen port s else panicked

  abbrev pub connected_run : ℤ → ℤ → Option Fault → Server → Ran
  connected_run cleanup_interval port (some f) s = returned (some f) s
  connected_run cleanup_interval port none s =
      migrated_run cleanup_interval port run_migrations (record s { connected = true })

  unfoldable pub run_server : ℤ → ℤ → Ran
  run_server cleanup_interval port = connected_run cleanup_interval port connect_db new_server

abbrev pub health_of : Bool → Health
health_of true = record { status = "healthy"; database = "connected" }
health_of false = record { status = "unhealthy"; database = "disconnected" }

-- The health check, which answers 200 also where the database is not reached.
unfoldable pub handle_health : Method → Bool → Response
handle_health Method.get pinged = respond 200 (health (health_of pinged))
handle_health _ pinged = method_not_allowed
