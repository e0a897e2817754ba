-- ===== src/Store.antt =====
-- internal/db: the tables of the job store and the statements on them.
pub mod Row
pub mod Jobs
pub mod Retry
pub mod Attempts
pub mod Stats
pub mod Statement
