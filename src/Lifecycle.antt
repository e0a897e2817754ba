-- ===== src/Lifecycle.antt =====
-- What the statements of internal/db keep true of the tables, whatever their order.
pub mod Rows
pub mod Tables
pub mod Claim
pub mod Reachable
pub mod Arrows
pub mod Edges
pub mod History
pub mod Claiming
pub mod Handing
pub mod Updates
pub mod Open
pub mod Draining
