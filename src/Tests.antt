-- ===== src/Tests.antt =====
-- The theorems at concrete data.
mod Json
mod Data
mod Life
mod Serving
mod Outside
mod Cache
mod Remote
mod Running
mod Doubles
mod Downloads
mod Starting
mod Commands
