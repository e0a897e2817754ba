-- ===== src/Executor.antt =====
-- internal/executor: running jobs, and the cache of their binaries.
pub mod Output
pub mod Cache
pub mod EvictionLoop
pub mod Eviction
pub mod Newest
pub mod Binaries
pub mod Verified
pub mod Oversized
pub mod Fetching
pub mod Truncation
pub mod Poll
pub mod Polling
pub mod GivingUp
pub mod Runner
pub mod Start
pub mod Reports
pub mod Delivery
pub mod Marker
