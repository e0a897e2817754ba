-- ===== src/Client.antt =====
-- pkg/client: the client of the HTTP API.
pub mod Calls
pub mod Contract
pub mod Remote
pub mod Errors
pub mod Recognition
pub mod Mock
pub mod Connection
pub mod Reaching
pub mod Sending
pub mod Resending
