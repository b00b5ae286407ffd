-- ===== src/Std.antt =====
-- What the program uses of the C++ standard library: texts, numbers in texts, files.
pub mod Text
pub mod Decimal
pub mod Files
pub mod Lua
