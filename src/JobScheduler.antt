-- ===== src/JobScheduler.antt =====
-- testService/JobScheduler.h and testService/JobScheduler.cpp.
pub mod Defs
pub mod Invariant
pub mod Progress
pub mod Queries
pub mod Storage
pub mod Restart
pub mod Starts
pub mod Frame
pub mod Accounts
