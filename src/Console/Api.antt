-- ===== src/Console/Api.antt =====
-- What repl/console.cpp uses of Lua and of its process. Lua is a parameter; the values that the code
-- keeps on Lua's stack are arguments and results of the functions of the model.
use opcuatesttool.Prelude.{Bool, Option, none, some, List, ◌++◌, ℤ}
use opcuatesttool.Std.Text.{Text, codes}
use opcuatesttool.Std.Lua.{Lua}
use opcuatesttool.Repl.Extension.{Global}

-- `luaL_loadbuffer` and `luaL_loadfile`: a function, or a message.
pub data Loaded (Chunk : Type 0) : Type 0 where
  chunk : Chunk → Loaded Chunk
  syntax_error : Text → Loaded Chunk  -- LUA_ERRSYNTAX
  load_error : Text → Loaded Chunk

-- An error object: a text, or what `__tostring` makes of it and the name of its type.
pub data Error : Type 0 where
  message : Text → Error
  object : Option Text → Text → Error

-- `lua_pcall`. A call that never returns or ends the process is not modelled.
pub data Called (Value : Type 0) : Type 0 where
  returned : List Value → Called Value
  failed : Error → Called Value

-- The state of the interpreter, the rest of the standard input, and what was written.
pub record World (State : Type 0) : Type 0 where
  pub lua : State
  pub input : Text
  pub output : Text
  pub errors : Text

pub record LuaApi : Type 1 where
  pub lua : Lua Global
  pub Value : Type 0
  pub Chunk : Type 0
  pub load : Text → Text → Loaded Chunk  -- the source and its name
  pub load_file : Option Text → World lua.State → Loaded Chunk × World lua.State  -- none: stdin
  pub call : Chunk → List Value → World lua.State → Called Value × World lua.State
  pub require : Text → World lua.State → Called Value × World lua.State
  pub print : List Value → World lua.State → Option Text × World lua.State  -- a message if it fails
  pub traceback : Text → lua.State → Text
  pub first_or_nil : List Value → Value
  pub set_value : Text → Value → lua.State → lua.State
  pub set_arg : List (ℤ × Text) → lua.State → lua.State  -- the table `arg`
  pub arg_values : lua.State → Option (List Value)  -- the values from 1 on; none: it is no table
  pub global_text : Text → lua.State → Option Text  -- `lua_getglobal` and `lua_tostring`
  pub null_text : Text  -- what `fprintf` writes for a null pointer
  pub open_libs : Bool → lua.State → lua.State  -- whether LUA_NOENV is set

module _ {State : Type 0} where
  abbrev pub write : Text → World State → World State
  write text w = record w { output = w.output ++ text }

  -- `l_message`; in the loop there is no name.
  unfoldable pub l_message : Option Text → Text → World State → World State
  l_message none text w = record w { errors = w.errors ++ text ++ codes "\n" }
  l_message (some name) text w = record w {
    errors = w.errors ++ name ++ codes ": " ++ text ++ codes "\n";
  }
