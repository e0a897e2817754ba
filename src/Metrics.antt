-- ===== src/Metrics.antt =====
-- internal/metrics/middleware.go: the labels of requests.
pub mod Endpoint
pub mod Labels
pub mod Middleware
pub mod Recording
