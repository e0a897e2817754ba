-- ===== src/Cli.antt =====
-- cmd/executr: the command line.
pub mod Submit
pub mod Submissions
pub mod Config
pub mod Starting
pub mod Inspect
pub mod Roundtrip
pub mod Table
