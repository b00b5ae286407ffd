-- ===== src/TestRunner/Runtime.antt =====
-- testrunner/Runtime.h and testrunner/Runtime.cpp. The Lua interpreter with its binding library and
-- the OPC UA client are parameters.
use opcuatesttool.Prelude.{text_eq, ◌≡◌, refl, some, [], ◌∷◌, ◌∙◌, ap}
use opcuatesttool.Prelude.Dict.{Dict, lookup}
use opcuatesttool.Std.Text.{Text, codes}
use opcuatesttool.Std.Files.{◌/◌}
use opcuatesttool.Std.Lua.{
  Call, returns, throws_opc_exception, throws_std_exception, throws_other, base, string, Lua, IsLua,
  set_all, distinct, bound_or, get-set_all,
}

-- The functions that a script can call. A method of `Client` is bound to the client of the run.
pub data Function : Type 0 where
  client_connect client_disconnect client_read client_write client_call client_browse : Function
  resolve_namespace_uri : Function
  variant_vector : Function
  wait : Function
  load_nodeset : Text → Function  -- the directory before the name of the node set
  create_variant_from_json : Function

-- The methods that are assigned to a type of the client library.
pub data Method : Type 0 where
  variant_to_string browse_result_id browse_result_name browse_result_is_variable : Method

-- What `load` stores under a global name; a type is given with the methods assigned to it.
pub data Global : Type 0 where
  function : Function → Global
  usertype : Dict Text Method → Global

-- The globals in the order in which `load` sets them.
unfoldable pub bindings : Text → Dict Text Global
bindings script_dir =
    (codes "connect", function client_connect)
    ∷ (codes "disconnect", function client_disconnect)
    ∷ (codes "read", function client_read)
    ∷ (codes "write", function client_write)
    ∷ (codes "NodeId", usertype [])
    ∷ (codes "Variant", usertype ((codes "toString", variant_to_string) ∷ []))
    ∷ (
      codes "BrowseResult",
      usertype (
          (codes "Id", browse_result_id)
          ∷ (codes "Name", browse_result_name)
          ∷ (codes "IsVariable", browse_result_is_variable)
          ∷ []),
    )
    ∷ (codes "resolveUri", function resolve_namespace_uri)
    ∷ (codes "call", function client_call)
    ∷ (codes "browse", function client_browse)
    ∷ (codes "VariantVector", function variant_vector)
    ∷ (codes "wait", function wait)
    ∷ (codes "loadNodeset", function (load_nodeset script_dir))
    ∷ (codes "VariantFromJson", function create_variant_from_json)
    ∷ []

module _ (lua : Lua Global) where
  -- After the run of `libOpc.lua`; an exception leaves `load`.
  unfoldable pub after_file : Text → Call × lua.State → Call × lua.State
  after_file script_dir (returns, s) = (returns, set_all lua (bindings script_dir) s)
  after_file script_dir (throws_opc_exception, s) = (throws_opc_exception, s)
  after_file script_dir (throws_std_exception, s) = (throws_std_exception, s)
  after_file script_dir (throws_other, s) = (throws_other, s)

  -- After `connect`.
  unfoldable pub after_connect : Text → Call → Call × lua.State
  unfolding after_file
  after_connect script_dir returns = after_file script_dir (
      lua.do_file (script_dir / codes "libOpc.lua")
        (lua.open_libraries (base ∷ string ∷ []) lua.fresh))
  after_connect script_dir throws_opc_exception = (throws_opc_exception, lua.fresh)
  after_connect script_dir throws_std_exception = (throws_std_exception, lua.fresh)
  after_connect script_dir throws_other = (throws_other, lua.fresh)

  -- `load`; the argument tells how the connection with a server ends.
  unfoldable pub load : (Text → Call) → Text → Text → Call × lua.State
  unfolding after_connect
  load connect server_uri script_dir = after_connect script_dir (connect server_uri)

  -- The name is bound to the function.
  abbrev Binds : lua.State → Text → Function → Type 0
  Binds s name f = lua.get name s ≡ some (lua.of_global (function f))

  -- The functions that README.md promises to scripts.
  abbrev pub Documented : Text → lua.State → Type 0
  Documented script_dir s =
      Binds s (codes "read") client_read
      × Binds s (codes "write") client_write
      × Binds s (codes "browse") client_browse
      × Binds s (codes "call") client_call
      × Binds s (codes "wait") wait
      × Binds s (codes "connect") client_connect
      × Binds s (codes "disconnect") client_disconnect
      × Binds s (codes "loadNodeset") (load_nodeset script_dir)
      × Binds s (codes "VariantFromJson") create_variant_from_json

  module _ (laws : IsLua lua) (script_dir : Text) (s : lua.State) where
    get-bindings :
        (name : Text)
        → lua.get name (set_all lua (bindings script_dir) s)
          ≡ bound_or lua (lua.get name s) (lookup name (bindings script_dir))
    unfolding bindings lookup distinct
    get-bindings name = get-set_all lua laws (bindings script_dir) name s refl

    bindings-Documented : Documented script_dir (set_all lua (bindings script_dir) s)
    unfolding bindings lookup
    bindings-Documented = (
      get-bindings (codes "read"),
      get-bindings (codes "write"),
      get-bindings (codes "browse"),
      get-bindings (codes "call"),
      get-bindings (codes "wait"),
      get-bindings (codes "connect"),
      get-bindings (codes "disconnect"),
      get-bindings (codes "loadNodeset"),
      get-bindings (codes "VariantFromJson"),
    )

    -- Where the assignment of a global is read back and changes no other global: if the connection
    -- with the server and the run of `libOpc.lua` return, so does `load`; then each name in the
    -- table of the code has the value of the table, whatever `libOpc.lua` has made of that name,
    -- every other global is as `libOpc.lua` has left it, and the functions that README.md promises
    -- are bound, the loading of a node set with the directory of the scripts.
    pub load_binds :
        (connect : Text → Call) (server_uri : Text)
        → connect server_uri ≡ returns
        → lua.do_file
            (script_dir / codes "libOpc.lua")
            (lua.open_libraries (base ∷ string ∷ []) lua.fresh)
          ≡ (returns, s)
        → (s' : lua.State) × (load connect server_uri script_dir ≡ (returns, s'))
          × ((name : Text)
              → lua.get name s' ≡ bound_or lua (lua.get name s) (lookup name (bindings script_dir)))
          × Documented script_dir s'
    unfolding load after_connect after_file
    load_binds connect server_uri connects runs = (
      set_all lua (bindings script_dir) s,
      ap (after_connect script_dir) connects ∙ ap (after_file script_dir) runs,
      get-bindings,
      bindings-Documented,
    )
