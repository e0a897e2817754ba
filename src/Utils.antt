-- ===== src/Utils.antt =====
-- internal/utils: the HTTP client with retries.
pub mod Http
pub mod Backoff
pub mod Downloader
pub mod Downloads
pub mod Progress
