-- ===== src/Events.antt =====
-- The server-sent events of api/Server.h.
pub mod Dispatcher
pub mod Wakeups
pub mod Framing
