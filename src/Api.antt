-- ===== src/Api.antt =====
-- The interface between the HTTP server and the service: api/Request.h.
pub mod Request
pub mod Handlers
pub mod Routes
pub mod Addresses
pub mod Dispatch
pub mod Server
pub mod Effect
pub mod Endpoints
pub mod Termination
pub mod Jobs
