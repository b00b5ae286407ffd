-- ===== src/Locks.antt =====
-- The two mutexes of the service: `_m` of testService/JobScheduler.h and `m_` of the dispatcher of
-- api/Server.h. What is done between locking and unlocking is left out here; it is in JobScheduler and
-- Events, as single steps.
pub mod Defs
pub mod Stages
pub mod Lists
pub mod Progress
