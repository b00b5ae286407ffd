-- ===== src/Repl/Extension.antt =====
-- repl/OpcUaExtension.h and repl/OpcUaExtension.cpp: what the interpreter of the console adds to Lua.
-- The OPC UA client is a parameter.
use opcuatesttool.Prelude.{
  text_eq, ◌≡◌, refl, Bool, true, false, Option, none, some, List, [], ◌∷◌, ◌∙◌, ap,
}
use opcuatesttool.Prelude.Dict.{Dict, lookup}
use opcuatesttool.Std.Text.{Text, codes}
use opcuatesttool.Std.Lua.{Lua, IsLua, set_all, distinct, bound_or, get-set_all}

-- The functions that work on the client of the extension.
pub data Function : Type 0 where
  create_client connect disconnect read resolve_uri : Function

-- The methods that are assigned to a type of the client library.
pub data Method : Type 0 where
  variant_to_string browse_result_id browse_result_name browse_result_is_variable : Method

-- What `add` stores under a global name; a type is given with the methods assigned to it.
pub data Global : Type 0 where
  function : Function → Global
  usertype : Dict Text Method → Global

-- The globals in the order in which `add` sets them.
unfoldable pub globals : Dict Text Global
globals =
    (codes "createClient", function create_client)
    ∷ (codes "connect", function connect)
    ∷ (codes "disconnect", function disconnect)
    ∷ (codes "read", function read)
    ∷ (codes "NodeId", usertype [])
    ∷ (codes "Variant", usertype ((codes "toString", variant_to_string) ∷ []))
    ∷ (
      codes "BrowseResult",
      usertype (
          (codes "Id", browse_result_id)
          ∷ (codes "Name", browse_result_name)
          ∷ (codes "IsVariable", browse_result_is_variable)
          ∷ []),
    )
    ∷ (codes "resolveUri", function resolve_uri)
    ∷ []

unfoldable pub add : (lua : Lua Global) → lua.State → lua.State
add lua s = set_all lua globals s

-- The client library: a client, and what its methods answer, an exception included.
pub record ClientLibrary : Type 1 where
  pub Client : Type 0
  pub NodeId : Type 0
  pub Reply : Type 0
  pub nothing : Reply
  pub new_client : Text → Client
  pub connect : Client → Reply × Client
  pub disconnect : Client → Reply × Client
  pub read : NodeId → Client → Reply × Client
  pub resolve_namespace_uri : Text → Client → Reply × Client

module _ (lib : ClientLibrary) where
  -- A call of one of the functions from Lua.
  pub data Command : Type 0 where
    call_create_client : Text → Command
    call_connect call_disconnect : Command
    call_read : lib.NodeId → Command
    call_resolve_uri : Text → Command

  -- A method of the client that the pointer holds; `none` is the use of a null pointer.
  abbrev on_client :
      (lib.Client → lib.Reply × lib.Client)
      → Option lib.Client
      → Option (lib.Reply × Option lib.Client)
  on_client method none = none
  on_client method (some client) = let r = method client in some (r.0, some r.1)

  -- The bodies of the functions, over the pointer to the client.
  unfoldable invoke : Command → Option lib.Client → Option (lib.Reply × Option lib.Client)
  invoke (call_create_client uri) client = some (lib.nothing, some (lib.new_client uri))
  invoke call_connect client = on_client lib.connect client
  invoke call_disconnect client = on_client lib.disconnect client
  invoke (call_read id) client = on_client (lib.read id) client
  invoke (call_resolve_uri uri) client = on_client (lib.resolve_namespace_uri uri) client

  abbrev answered :
      Option (lib.Reply × Option lib.Client)
      → (Option lib.Client → Option (List lib.Reply))
      → Option (List lib.Reply)
  answered none next = none
  answered (some (reply, client)) next = elim (next client) [
    | none ↦ none
    | some replies ↦ some (reply ∷ replies)
  ]

  -- The calls of a session one after the other, with their answers.
  unfoldable pub session : List Command → Option lib.Client → Option (List lib.Reply)
  unfolding invoke
  session [] client = some []
  session (command ∷ commands) client = answered (invoke command client) (session commands)

  -- The session is empty or begins with `createClient`.
  abbrev pub creates_first : List Command → Bool
  creates_first [] = true
  creates_first (call_create_client uri ∷ commands) = true
  creates_first (_ ∷ commands) = false

  invoke-client :
      (command : Command) (client : lib.Client)
      → (reply : lib.Reply) × (client' : lib.Client) × (invoke command (some client)
          ≡ some (reply, some client'))
  unfolding invoke
  invoke-client (call_create_client uri) client = (_, _, refl)
  invoke-client call_connect client = (_, _, refl)
  invoke-client call_disconnect client = (_, _, refl)
  invoke-client (call_read id) client = (_, _, refl)
  invoke-client (call_resolve_uri uri) client = (_, _, refl)

  session-step :
      (command : Command) (commands : List Command) (client client' : Option lib.Client)
      (reply : lib.Reply) (replies : List lib.Reply)
      → invoke command client ≡ some (reply, client')
      → session commands client' ≡ some replies
      → session (command ∷ commands) client ≡ some (reply ∷ replies)
  unfolding session
  session-step command commands client client' reply replies e rest =
      ap (λ o. answered o (session commands)) e ∙ rw (answered, rest)

  -- Once there is a client, every session is answered.
  session-client :
      (commands : List Command) (client : lib.Client)
      → (replies : List lib.Reply) × (session commands (some client) ≡ some replies)
  unfolding session
  session-client [] client = ([], refl)
  session-client (command ∷ commands) client =
      let (reply, client', e) = invoke-client command client in
      let (replies, rest) = session-client commands client' in
      (reply ∷ replies, session-step command commands _ _ reply replies e rest)

  -- The session uses no null pointer.
  abbrev pub is_answered : Option (List lib.Reply) → Bool
  is_answered none = false
  is_answered (some replies) = true

  -- A session of calls that starts without a client uses no null pointer if and only if it is
  -- empty or begins with `createClient`.
  pub session_safe :
      (commands : List Command) → is_answered (session commands none) ≡ creates_first commands
  unfolding session invoke
  session_safe [] = refl
  session_safe (call_create_client uri ∷ commands) =
      let (replies, rest) = session-client commands (lib.new_client uri) in
      ap is_answered
        (session-step (call_create_client uri) commands none _ lib.nothing replies refl rest)
  session_safe (call_connect ∷ commands) = refl
  session_safe (call_disconnect ∷ commands) = refl
  session_safe (call_read id ∷ commands) = refl
  session_safe (call_resolve_uri uri ∷ commands) = refl

-- After `add`, the names of the extension are bound to its functions and types, and every other
-- global is as it was.
add_binds :
    (lua : Lua Global) (laws : IsLua lua) (name : Text) (s : lua.State)
    → lua.get name (add lua s) ≡ bound_or lua (lua.get name s) (lookup name globals)
unfolding add globals lookup distinct
add_binds lua laws name s = get-set_all lua laws globals name s refl
