-- ===== src/Console/Args.antt =====
-- `collectargs` of repl/console.cpp: the options of the command line.
use opcuatesttool.Prelude.{ℕ, nat_eq, ◌+◌, Bool, true, false, List, [], ◌∷◌, ◌==◌, if◌then◌else◌}
use opcuatesttool.Std.Text.{Text, is_empty}

-- The mask `args`, without `has_error`.
pub record Flags : Type 0 where
  pub has_i : Bool
  pub has_v : Bool
  pub has_e : Bool
  pub has_E : Bool

-- What the characters of one argument say.
pub data Shape : Type 0 where
  script : Shape  -- no option, or "-"
  dashes : Shape  -- "--"
  flag_E flag_i flag_v : Shape
  code_joined library_joined : Shape  -- -e or -l with its argument
  code library : Shape  -- -e or -l, whose argument is the next one
  invalid : Shape

abbrev exactly : Shape → Text → Shape
exactly shape extra = if is_empty extra then shape else invalid

abbrev with_extra : Shape → Shape → Text → Shape
with_extra alone joined extra = if is_empty extra then alone else joined

-- The second character and what follows it.
abbrev after_dash : Text → Shape
after_dash [] = script
after_dash (d ∷ extra) =
    if d == b'-'
    then exactly dashes extra
    else if d == b'E'
    then exactly flag_E extra
    else if d == b'i'
    then exactly flag_i extra
    else if d == b'v'
    then exactly flag_v extra
    else if d == b'e'
    then with_extra code code_joined extra
    else if d == b'l'
    then with_extra library library_joined extra
    else invalid

unfoldable pub shape_of : Text → Shape
shape_of [] = script
shape_of (c ∷ s) = if c == b'-' then after_dash s else script

abbrev pub starts_dash : Text → Bool
starts_dash [] = false
starts_dash (c ∷ s) = c == b'-'

-- The flags and `first`, or `has_error` with the place of the bad argument.
pub data Collected : Type 0 where
  collected : Flags → ℕ → Collected
  has_error : ℕ → Collected

-- `-i` implies `-v`.
abbrev pub with_i : Flags → Flags
with_i args = record args { has_i = true; has_v = true }

-- The `switch`: the end of the loop, or the flags, and whether the next argument belongs to this one.
pub data Step : Type 0 where
  stop : Collected → Step
  go_on : Flags → Step
  take_next : Flags → Step

unfoldable pub step : ℕ → Flags → Shape → Step
step i args script = stop (collected args i)
step i args dashes = stop (collected args (i + 1))
step i args flag_E = go_on (record args { has_E = true })
step i args flag_i = go_on (with_i args)
step i args flag_v = go_on (record args { has_v = true })
step i args code_joined = go_on (record args { has_e = true })
step i args library_joined = go_on args
step i args code = take_next (record args { has_e = true })
step i args library = take_next args
step i args invalid = stop (has_error i)

-- The loop, with `i` and the arguments from `argv[i]` on.
unfoldable pub collect : ℕ → Flags → List Text → Collected
unfolding step
collect i args [] = collected args i
collect i args (a ∷ []) = elim (step i args (shape_of a)) [
  | stop result ↦ result
  | go_on args' ↦ collect (i + 1) args' []
  | take_next args' ↦ has_error i
]
collect i args (a ∷ next ∷ rest) = elim (step i args (shape_of a)) [
  | stop result ↦ result
  | go_on args' ↦ collect (i + 1) args' (next ∷ rest)
  | take_next args' ↦
      let more = collect (i + 2) args' rest in if starts_dash next then has_error i else more
]

abbrev pub no_flags : Flags
no_flags = record { has_i = false; has_v = false; has_e = false; has_E = false }

-- `collectargs`, with the arguments after the name of the program.
unfoldable pub collect_args : List Text → Collected
unfolding collect
collect_args arguments = collect 1 no_flags arguments
