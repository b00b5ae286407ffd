-- ===== src/Tests/Loading.antt =====
-- An interpreter whose library file defines "read" and "helper", and what is bound after the loading.
use opcuatesttool.Prelude.{text_eq, ◌≡◌, refl, Option, none, some, []}
use opcuatesttool.Prelude.Dict.{Dict, lookup, insert, lookup-insert}
use opcuatesttool.Std.Text.{Text, codes}
use opcuatesttool.Std.Lua.{Call, returns, Lua, IsLua, bound_or}
use opcuatesttool.TestRunner.Runtime.{Global, bindings, load, load_binds, Documented}

-- A value is a global that C++ code has set, or else a function of Lua.
abbrev pub State : Type 0
State = Dict Text (Option Global)

abbrev pub lua_with : (Text → Call) → Lua Global
lua_with script_file = record {
  State = State;
  Value = Option Global;
  of_global = λ g. some g;
  fresh = [];
  open_libraries = λ libraries s. s;
  do_file = λ path s. (returns, insert (codes "helper") none (insert (codes "read") none s));
  script_file = λ path s. script_file path;
  set = λ name g s. insert name (some g) s;
  get = lookup;
}

abbrev lua : Lua Global
lua = lua_with (λ path. returns)

lua-IsLua : IsLua lua
lua-IsLua = record { get-set = λ name other g s. lookup-insert name other (some g) s }

abbrev after_library : State
after_library = insert (codes "helper") none (insert (codes "read") none [])

load_binds_example :
    (s : State) × (load lua (λ server. returns) (codes "opc.tcp://server") (codes "w/repo/scripts")
      ≡ (returns, s))
    × ((name : Text)
        → lookup name s
          ≡ bound_or lua
              (lookup name after_library)
              (lookup name (bindings (codes "w/repo/scripts"))))
    × Documented lua (codes "w/repo/scripts") s
load_binds_example =
    load_binds lua lua-IsLua (codes "w/repo/scripts") after_library (λ server. returns)
      (codes "opc.tcp://server") refl refl
