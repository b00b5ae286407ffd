-- ===== src/Tests.antt =====
-- Concrete runs: the results at inputs that exercise the code.
pub mod Data
pub mod Scheduling
pub mod Storing
pub mod Paging
pub mod Delivery
pub mod Serving
pub mod Running
pub mod Living
pub mod Routing
pub mod Typing
pub mod Loading
pub mod Interpreter
pub mod Extending
pub mod Starting
pub mod Reviving
pub mod Asking
pub mod Configuring
pub mod Crashing
pub mod Importing
pub mod Locking
