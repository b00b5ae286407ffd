-- ===== src/TestService.antt =====
-- testService/TestService.cpp and testService/Repl.h.
pub mod Monad
pub mod Repl
pub mod Defs
pub mod Signals
pub mod Effect
pub mod History
pub mod Main
pub mod Life
pub mod Durable
pub mod Reopen
pub mod Numbered
pub mod Lives
pub mod Notices
