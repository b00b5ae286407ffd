-- ===== src/LuaRunner.antt =====
-- luaRunner/main.cpp.
pub mod Script
pub mod Main
