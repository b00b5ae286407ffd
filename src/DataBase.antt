-- ===== src/DataBase.antt =====
-- testService/DataBase.h and testService/DataBase.cpp.
pub mod Defs
pub mod Finished
pub mod Pages
pub mod Newest
pub mod Termination
pub mod Listing
pub mod FinishedJobs
pub mod Requests
pub mod Startup
pub mod Ends
pub mod FirstStart
pub mod Lines
