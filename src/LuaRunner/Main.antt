-- ===== src/LuaRunner/Main.antt =====
-- luaRunner/main.cpp, a program that runs one fixed script with most of the functions of the test
-- runner. The construction of its client is taken to succeed.
use opcuatesttool.Prelude.{
  text_eq, ◌≡◌, ◌≢◌, refl, Bool, true, false, none, some, [], ◌∷◌, ◌++◌, ◌∙◌, ap, sym, ℕ, arith,
}
use opcuatesttool.LuaRunner.Script.{trial_script}
use opcuatesttool.Prelude.Dict.{Dict, lookup}
use opcuatesttool.Std.Text.{Text, codes}
use opcuatesttool.Std.Files.{◌/◌}
use opcuatesttool.Std.Lua.{
  Call, returns, throws_opc_exception, throws_std_exception, throws_other, base, string, Lua, IsLua,
  set_all, distinct, bound_or, get-set_all,
}
use opcuatesttool.TestRunner.Runtime.{
  Global, function, usertype, client_connect, client_disconnect, client_read, client_write,
  client_call, client_browse, resolve_namespace_uri, variant_vector, wait, load_nodeset,
  create_variant_from_json, variant_to_string, browse_result_id, browse_result_name,
  browse_result_is_variable, bindings, load, load_binds,
}

-- The globals in the order in which `main` sets them.
unfoldable trial_bindings : Dict Text Global
trial_bindings =
    (codes "connect", function client_connect)
    ∷ (codes "disconnect", function client_disconnect)
    ∷ (codes "read", function client_read)
    ∷ (codes "write", function client_write)
    ∷ (codes "NodeId", usertype [])
    ∷ (codes "Variant", usertype ((codes "toString", variant_to_string) ∷ []))
    ∷ (
      codes "BrowseResult",
      usertype (
          (codes "Id", browse_result_id)
          ∷ (codes "Name", browse_result_name)
          ∷ (codes "IsVariable", browse_result_is_variable)
          ∷ []),
    )
    ∷ (codes "resolveUri", function resolve_namespace_uri)
    ∷ (codes "call", function client_call)
    ∷ (codes "browse", function client_browse)
    ∷ (codes "VariantVector", function variant_vector)
    ∷ []

-- How the process ends.
data TrialEnd : Type 0 where
  exit_code : ℕ → TrialEnd
  uncaught : TrialEnd

module _ (lua : Lua Global) where
  -- The interpreter before the script.
  unfoldable prepared : lua.State
  prepared = set_all lua trial_bindings (lua.open_libraries (base ∷ []) lua.fresh)

  -- The handler has `std::exception`; the flag says whether `OpcException` is one.
  abbrev trial_end : Bool → Call → TrialEnd
  trial_end opc_is_std returns = exit_code 0
  trial_end opc_is_std throws_std_exception = exit_code 0
  trial_end true throws_opc_exception = exit_code 0
  trial_end false throws_opc_exception = uncaught
  trial_end opc_is_std throws_other = uncaught

  -- `script` is `lua.script`.
  unfoldable main : (script : Text → lua.State → Call) → Bool → TrialEnd
  unfolding prepared
  main script opc_is_std = trial_end opc_is_std (script trial_script prepared)

-- The functions of the test runner that the program leaves out.
abbrev left_out : Text → Dict Text Global
left_out dir =
    (codes "wait", function wait)
    ∷ (codes "loadNodeset", function (load_nodeset dir))
    ∷ (codes "VariantFromJson", function create_variant_from_json)
    ∷ []

lookup-append :
    {V : Type 0} (key : Text) (xs ys : Dict Text V)
    → lookup key ys ≡ none
    → lookup key (xs ++ ys) ≡ lookup key xs
unfolding lookup
lookup-append key [] ys e = e
lookup-append key ((k, v) ∷ xs) ys e = rw (lookup-append key xs ys e) refl

lookup-other :
    {V : Type 0} (key other : Text) (v : V) (d : Dict Text V)
    → key ≢ other
    → lookup key ((other, v) ∷ d) ≡ lookup key d
unfolding lookup
lookup-other key other v d n = grind (arith, text_eq.beq_iff other key)

lookup-bindings :
    (dir name : Text)
    → name ≢ codes "wait"
    → name ≢ codes "loadNodeset"
    → name ≢ codes "VariantFromJson"
    → lookup name (bindings dir) ≡ lookup name trial_bindings
unfolding bindings trial_bindings lookup
lookup-bindings dir name a b c = lookup-append name trial_bindings (left_out dir) absent
  where
    absent : lookup name (left_out dir) ≡ none
    absent =
        lookup-other name (codes "wait") (function wait)
          ((codes "loadNodeset", function (load_nodeset dir))
            ∷ (codes "VariantFromJson", function create_variant_from_json)
            ∷ [])
          a
        ∙ lookup-other name (codes "loadNodeset") (function (load_nodeset dir))
            ((codes "VariantFromJson", function create_variant_from_json) ∷ []) b
        ∙ lookup-other name (codes "VariantFromJson") (function create_variant_from_json) [] c

module _ (lua : Lua Global) (laws : IsLua lua) where
  get-prepared :
      (name : Text)
      → lua.get name (prepared lua)
        ≡ bound_or lua
            (lua.get name (lua.open_libraries (base ∷ []) lua.fresh))
            (lookup name trial_bindings)
  unfolding prepared trial_bindings lookup distinct
  get-prepared name = get-set_all lua laws trial_bindings name _ refl

  -- Where the assignment of a global is read back and changes no other global: if `load` of the
  -- test runner can connect and run `libOpc.lua`, it returns, and each global that it sets, other
  -- than `wait`, `loadNodeset` and `VariantFromJson`, has the value that it also has when the
  -- script of this program starts.
  prepared-load :
      (connect : Text → Call) (server_uri dir name : Text) (g : Global) (s : lua.State)
      → connect server_uri ≡ returns
      → lua.do_file (dir / codes "libOpc.lua") (lua.open_libraries (base ∷ string ∷ []) lua.fresh)
        ≡ (returns, s)
      → lookup name (bindings dir) ≡ some g
      → name ≢ codes "wait"
      → name ≢ codes "loadNodeset"
      → name ≢ codes "VariantFromJson"
      → (s' : lua.State) × (load lua connect server_uri dir ≡ (returns, s'))
        × (lua.get name s' ≡ some (lua.of_global g))
        × (lua.get name (prepared lua) ≡ some (lua.of_global g))
  prepared-load connect server_uri dir name g s connects runs set a b c =
      let (s', loads, get, documented) =
        load_binds lua laws dir s connect server_uri connects runs in
      (
        s',
        loads,
        get name ∙ ap (bound_or lua (lua.get name s)) set,
        get-prepared name
            ∙ ap (bound_or lua (lua.get name (lua.open_libraries (base ∷ []) lua.fresh)))
                (sym (lookup-bindings dir name a b c) ∙ set),
      )
