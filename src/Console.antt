-- ===== src/Console.antt =====
-- The console: repl/console.cpp, the program that the service starts as its interpreter.
pub mod Args
pub mod Api
pub mod Chunks
pub mod Input
pub mod Loop
pub mod Options
pub mod Main
pub mod CommandLine
pub mod Termination
pub mod Lines
pub mod Session
pub mod Posted
