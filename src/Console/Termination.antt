-- ===== src/Console/Termination.antt =====
-- The loops of `multiline` and `doREPL` in repl/console.cpp end with the input.
use opcuatesttool.Prelude.{
  ℕ, zero, suc, nat_eq, ◌≤◌, ◌<◌, ◌≡◌, refl, Bool, true, false, Option, none, some, List, [], ◌∷◌,
  ◌++◌, ◌==◌, length, arith, Bool-cases, Option-cases, inl, inr, subst,
}
use opcuatesttool.Std.Text.{Text, codes, newline}
use opcuatesttool.Console.Api.{Loaded, chunk, syntax_error, load_error, Called, LuaApi, l_message}
use opcuatesttool.Console.Chunks.{Ran, values, error_text, handled, docall}
use opcuatesttool.Console.Input.{
  split_line, fgets, W, prompted, got_line, pushline, incomplete, multiline, Read, statement,
  no_input, as_statement, try_return, with_line, addreturn, loadline,
}
use opcuatesttool.Console.Loop.{l_print, printed, shown, evaluate, after_read, rounds, do_repl}

split_line-le : (n : ℕ) (s : Text) → length (split_line n s).1 ≤ length s
unfolding split_line
split_line-le zero s = omega arith
split_line-le (suc n) [] = omega arith
split_line-le (suc n) (c ∷ s) = elim (Bool-cases (c == newline)) [
  | inl e ↦ rw e (omega arith)
  | inr e ↦ rw e (omega (arith, split_line-le n s))
]

abbrev RestBelow : ℕ → Option (Text × Text) → Type 0
RestBelow n none = Unit {0}
RestBelow n (some (buffer, rest)) = length rest < n

split_line-lt : (n c : ℕ) (s : Text) → length (split_line (suc n) (c ∷ s)).1 < suc (length s)
unfolding split_line
split_line-lt n c s = elim (Bool-cases (c == newline)) [
  | inl e ↦ rw e (omega arith)
  | inr e ↦ rw e (omega (arith, split_line-le n s))
]

fgets-RestBelow : (s : Text) → RestBelow (length s) (fgets s)
fgets-RestBelow [] = tt
fgets-RestBelow (c ∷ s) = split_line-lt 510 c s

-- Code that runs may read of the input, and never adds to it.
pub record Consumes (api : LuaApi) : Type 0 where
  pub call_le :
      (f : api.Chunk) (args : List api.Value) (w : W api)
      → length (api.call f args w).1.input ≤ length w.input
  pub print_le :
      (vs : List api.Value) (w : W api) → length (api.print vs w).1.input ≤ length w.input

module _ (api : LuaApi) where
  abbrev LineBelow : ℕ → Option (Text × W api) → Type 0
  LineBelow n none = Unit {0}
  LineBelow n (some (line, w)) = length w.input < n

  got_line-LineBelow :
      (first : Bool) (w : W api) (n : ℕ) (o : Option (Text × Text))
      → RestBelow n o
      → LineBelow n (got_line api first w o)
  got_line-LineBelow first w n none h = tt
  got_line-LineBelow first w n (some (buffer, rest)) h = h

  pushline-LineBelow :
      (first : Bool) (w : W api) → LineBelow (length w.input) (pushline api first w)
  unfolding pushline
  pushline-LineBelow first w =
      got_line-LineBelow first (prompted api first w) _ _ (fgets-RestBelow w.input)

  abbrev Within : ℕ → Option (Loaded api.Chunk × W api) → Type 0
  Within n none = ⊥
  Within n (some (result, w)) = length w.input ≤ n

  multiline-Within :
      (fuel : ℕ) (line : Text) (w : W api) (n : ℕ)
      → length w.input ≤ n
      → length w.input < fuel
      → Within n (multiline api fuel line w)
  unfolding multiline
  multiline-Within zero line w n h f = elim f [ ]
  multiline-Within (suc fuel) line w n h f =
      elim (Bool-cases (incomplete api (api.load line (codes "=stdin")))) [
        | inr e ↦ rw e h
        | inl e ↦ elim (Option-cases (pushline api false w)) [
          | inl no_more ↦ rw (e, no_more) h
          | inr ((next, w'), more) ↦
              let below = subst (LineBelow (length w.input)) more (pushline-LineBelow false w) in
              rw (e, more)
                (multiline-Within fuel (line ++ codes "\n" ++ next) w' n (omega arith)
                  (omega arith))
        ]
      ]

  abbrev ReadBelow : ℕ → Option (Read api) → Type 0
  ReadBelow n none = ⊥
  ReadBelow n (some (no_input w)) = Unit {0}
  ReadBelow n (some (statement result w)) = length w.input < n

  as_statement-ReadBelow :
      (n m : ℕ) (o : Option (Loaded api.Chunk × W api))
      → m < n
      → Within m o
      → ReadBelow n (as_statement api o)
  as_statement-ReadBelow n m none h i = i
  as_statement-ReadBelow n m (some (result, w)) h i = omega arith

  try_return-ReadBelow :
      (fuel : ℕ) (line : Text) (w : W api) (n : ℕ) (result : Loaded api.Chunk)
      → length w.input < n
      → length w.input < fuel
      → ReadBelow n (try_return api fuel line w result)
  try_return-ReadBelow fuel line w n (chunk f) h g = h
  try_return-ReadBelow fuel line w n (syntax_error text) h g =
      as_statement-ReadBelow n (length w.input) _ h (multiline-Within fuel line w _ (omega arith) g)
  try_return-ReadBelow fuel line w n (load_error text) h g =
      as_statement-ReadBelow n (length w.input) _ h (multiline-Within fuel line w _ (omega arith) g)

  with_line-ReadBelow :
      (fuel : ℕ) (w : W api) (n : ℕ) (o : Option (Text × W api))
      → n ≤ fuel
      → LineBelow n o
      → ReadBelow n (with_line api fuel w o)
  with_line-ReadBelow fuel w n none f h = tt
  with_line-ReadBelow fuel w n (some (line, w')) f h =
      try_return-ReadBelow fuel line w' n (addreturn api line) h (omega arith)

  -- A statement takes at least one character of the input.
  loadline-ReadBelow :
      (fuel : ℕ) (w : W api)
      → length w.input ≤ fuel
      → ReadBelow (length w.input) (loadline api fuel w)
  unfolding loadline
  loadline-ReadBelow fuel w f = with_line-ReadBelow fuel w _ _ f (pushline-LineBelow true w)

module _ (api : LuaApi) (consumes : Consumes api) where
  printed-le : (r : Option Text × W api) → length (printed api r).input ≤ length r.1.input
  unfolding l_message
  printed-le (none, w) = omega arith
  printed-le (some text, w) = omega arith

  l_print-le : (vs : List api.Value) (w : W api) → length (l_print api vs w).input ≤ length w.input
  unfolding l_print
  l_print-le [] w = omega arith
  l_print-le (v ∷ vs) w =
      omega (arith, printed-le (api.print (v ∷ vs) w), consumes.print_le (v ∷ vs) w)

  shown-le : (r : Ran api × W api) → length (shown api r).input ≤ length r.1.input
  unfolding l_message
  shown-le (values vs, w) = l_print-le vs w
  shown-le (error_text text, w) = omega arith

  handled-le : (r : Called api.Value × W api) → length (handled api r).1.input ≤ length r.1.input
  handled-le (Called.returned vs, w) = omega arith
  handled-le (Called.failed e, w) = omega arith

  evaluate-le :
      (result : Loaded api.Chunk) (w : W api)
      → length (evaluate api result w).input ≤ length w.input
  unfolding evaluate docall l_message
  evaluate-le (chunk f) w =
      omega
        (arith, shown-le (docall api f [] w), handled-le (api.call f [] w), consumes.call_le f [] w)
  evaluate-le (syntax_error text) w = omega arith
  evaluate-le (load_error text) w = omega arith

  abbrev Ends : Option (W api) → Type 0
  Ends none = ⊥
  Ends (some w) = Unit {0}

  after_read-Ends :
      (next : Loaded api.Chunk → W api → Option (W api)) (n : ℕ) (o : Option (Read api))
      → ReadBelow api n o
      → ((result : Loaded api.Chunk) (w : W api) → length w.input < n → Ends (next result w))
      → Ends (after_read api next o)
  after_read-Ends next n none h ends = h
  after_read-Ends next n (some (no_input w)) h ends = tt
  after_read-Ends next n (some (statement result w)) h ends = ends result w h

  rounds-Ends : (fuel : ℕ) (w : W api) → length w.input < fuel → Ends (rounds api fuel w)
  unfolding rounds
  rounds-Ends zero w f = elim f [ ]
  rounds-Ends (suc fuel) w f =
      after_read-Ends (λ result w'. rounds api fuel (evaluate api result w')) (length w.input) _
        (loadline-ReadBelow api (suc fuel) w (omega arith))
        (λ result w' h.
          rounds-Ends fuel (evaluate api result w') (omega (arith, evaluate-le result w', h, f)))

  Ends-some : (o : Option (W api)) → Ends o → (w : W api) × (o ≡ some w)
  Ends-some none h = elim h [ ]
  Ends-some (some w) h = (w, refl)

  -- Where the code that runs, and its printing, never add to the input, the loop of the console
  -- ends for every input, also one that ends inside a statement.
  pub do_repl-ends : (w : W api) → (w' : W api) × (do_repl api w ≡ some w')
  unfolding do_repl
  do_repl-ends w = Ends-some _ (rounds-Ends (suc (length w.input)) w (omega arith))
