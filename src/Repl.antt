-- ===== src/Repl.antt =====
-- The interpreter as a process of its own: testService/Repl.h and repl/server.cpp.
pub mod Process
pub mod Listener
pub mod Relay
pub mod Extension
pub mod Server
pub mod Main
