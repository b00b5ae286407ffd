-- ===== src/Std/Lua.antt =====
-- The Lua interpreter with its binding library, which are parameters, and the code that sets its
-- globals: `Runtime::load` of testrunner/Runtime.cpp and `OpcUaExtension::add` of
-- repl/OpcUaExtension.cpp.
use opcuatesttool.Prelude.{
  text_eq, ◌≡◌, refl, Bool, true, false, Option, none, some, List, [], ◌∷◌, ◌==◌, if◌then◌else◌,
  ◌∙◌, arith,
}
use opcuatesttool.Prelude.Dict.{Dict, lookup}
use opcuatesttool.Std.Text.{Text}

-- How a call into the client or the interpreter ends.
pub data Call : Type 0 where
  returns : Call
  throws_opc_exception : Call  -- modernopc::OpcException
  throws_std_exception : Call  -- std::exception
  throws_other : Call  -- anything else, which no handler catches

pub data Library : Type 0 where
  base string : Library

-- An interpreter: its state, what runs in it, and its globals. `do_file` ignores an error of the file,
-- unless the binding library throws it.
pub record Lua (Global : Type 0) : Type 1 where
  pub State : Type 0
  pub Value : Type 0
  pub of_global : Global → Value
  pub fresh : State
  pub open_libraries : List Library → State → State
  pub do_file : Text → State → Call × State
  pub script_file : Text → State → Call
  pub set : Text → Global → State → State
  pub get : Text → State → Option Value

-- The assignment of a global is read back, and it changes no other global.
pub record IsLua {Global : Type 0} (lua : Lua Global) : Type 0 where
  pub get-set :
      (name other : Text) (g : Global) (s : lua.State)
      → lua.get other (lua.set name g s)
        ≡ (if name == other then some (lua.of_global g) else lua.get other s)

-- No name stands twice.
unfoldable pub distinct : {Global : Type 0} → Dict Text Global → Bool
distinct [] = true
distinct ((name, g) ∷ globals) = elim (lookup name globals) [
  | none ↦ distinct globals
  | some g' ↦ false
]

distinct-cons :
    {Global : Type 0} (name : Text) (g : Global) (globals : Dict Text Global)
    → distinct ((name, g) ∷ globals) ≡ true
    → (lookup name globals ≡ none) × (distinct globals ≡ true)
unfolding distinct
distinct-cons name g globals d = ground arith

module _ {Global : Type 0} (lua : Lua Global) where
  -- Globals that are set one after the other.
  unfoldable pub set_all : Dict Text Global → lua.State → lua.State
  set_all [] s = s
  set_all ((name, g) ∷ globals) s = set_all globals (lua.set name g s)

  -- A global of the table, or else what the name was before.
  abbrev pub bound_or : Option lua.Value → Option Global → Option lua.Value
  bound_or old none = old
  bound_or old (some g) = some (lua.of_global g)

  pub get-set_all :
      (laws : IsLua lua) (globals : Dict Text Global) (name : Text) (s : lua.State)
      → distinct globals ≡ true
      → lua.get name (set_all globals s) ≡ bound_or (lua.get name s) (lookup name globals)
  unfolding set_all lookup
  get-set_all laws [] name s u = refl
  get-set_all laws ((key, g) ∷ globals) name s u =
      let (fresh, distinct_rest) = distinct-cons key g globals u in
      get-set_all laws globals name (lua.set key g s) distinct_rest
      ∙ grind (arith, laws.get-set key name g s, text_eq.beq_iff key name, fresh)
