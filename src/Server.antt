-- ===== src/Server.antt =====
-- internal/server/server.go: the handlers of the HTTP API and the background workers.
pub mod Http
pub mod Convert
pub mod Jobs
pub mod Execution
pub mod Bulk
pub mod Workers
pub mod Rounds
pub mod Retries
pub mod Effects
pub mod Safety
pub mod Retention
pub mod BulkLaws
pub mod Answers
pub mod Routing
pub mod Dispatch
pub mod Listing
pub mod Backoff
pub mod Admin
pub mod Gauges
pub mod Startup
pub mod Ready
pub mod Routes
pub mod RoutesSafety
pub mod BulkSafety
pub mod Statements
pub mod System
pub mod Refinement
pub mod Running
