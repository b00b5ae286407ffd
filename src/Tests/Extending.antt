-- ===== src/Tests/Extending.antt =====
-- A session of the interpreter that asks a server for the value of node 7.
use opcuatesttool.Prelude.{ℕ, ◌≡◌, true, List, [], ◌∷◌, none}
use opcuatesttool.Std.Text.{Text, codes}
use opcuatesttool.Repl.Extension.{
  ClientLibrary, Command, call_create_client, call_connect, call_read, session, is_answered,
  session_safe,
}

-- A client is the address of its server; a node answers with its number.
abbrev lib : ClientLibrary
lib = record {
  Client = Text;
  NodeId = ℕ;
  Reply = ℕ;
  nothing = 0;
  new_client = λ uri. uri;
  connect = λ client. (0, client);
  disconnect = λ client. (0, client);
  read = λ id client. (id, client);
  resolve_namespace_uri = λ uri client. (1, client);
}

abbrev commands : List (Command lib)
commands = call_create_client (codes "opc.tcp://server") ∷ call_connect ∷ call_read 7 ∷ []

session_safe_example : is_answered lib (session lib commands none) ≡ true
session_safe_example = session_safe lib commands
