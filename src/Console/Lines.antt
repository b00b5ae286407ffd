-- ===== src/Console/Lines.antt =====
-- What the loop of repl/console.cpp does with lines that are whole statements.
use opcuatesttool.Prelude.{
  ℕ, zero, suc, nat_eq, ◌<◌, ◌≡◌, refl, true, false, some, List, [], ◌∷◌, ◌++◌, length, arith, ap,
  ◌∙◌, beq_ne,
}
use opcuatesttool.Std.Text.{Text, codes, newline, Lacks, Lacks-append, c_str, c_str-Lacks}
use opcuatesttool.Console.Api.{Loaded, chunk, syntax_error, load_error, LuaApi, write}
use opcuatesttool.Console.Input.{
  split_line, max_line, fgets, chop, expand, W, prompted, got_line, pushline, incomplete, multiline,
  statement, try_return, with_line, addreturn, loadline,
}
use opcuatesttool.Console.Loop.{evaluate}

-- A line that fits into the buffer and that `pushline` leaves as it is.
pub record IsLine (l : Text) : Type 0 where
  pub no_newline : Lacks newline l
  pub no_nul : Lacks 0 l
  pub fits : length l < max_line
  pub expanded : expand true l ≡ l

abbrev pub joined : List Text → Text
joined [] = []
joined (l ∷ ls) = l ++ newline ∷ joined ls

split_line-lem :
    (n : ℕ) (l rest : Text)
    → Lacks newline l
    → length l < n
    → split_line n (l ++ newline ∷ rest) ≡ (l ++ newline ∷ [], rest)
unfolding split_line
split_line-lem zero l rest k f = elim f [ ]
split_line-lem (suc n) [] rest k f = refl
split_line-lem (suc n) (c ∷ l) rest k f =
    rw (beq_ne c newline k.0) (ap (λ r. (c ∷ r.0, r.1)) (split_line-lem n l rest k.1 (omega arith)))

fgets-line :
    (l rest : Text)
    → Lacks newline l
    → length l < max_line
    → fgets (l ++ newline ∷ rest) ≡ some (l ++ newline ∷ [], rest)
fgets-line [] rest k f = ap some (split_line-lem max_line [] rest k f)
fgets-line (c ∷ l) rest k f = ap some (split_line-lem max_line (c ∷ l) rest k f)

chop-lem : (l : Text) → chop (l ++ newline ∷ []) ≡ l
unfolding chop
chop-lem [] = refl
chop-lem (c ∷ []) = refl
chop-lem (c ∷ d ∷ l) = ap (◌∷◌ c) (chop-lem (d ∷ l))

buffer_line : (l : Text) → IsLine l → expand true (chop (c_str (l ++ newline ∷ []))) ≡ l
buffer_line l v =
    ap (λ t. expand true (chop t))
      (c_str-Lacks (l ++ newline ∷ []) (Lacks-append 0 l (newline ∷ []) v.no_nul (omega arith)))
    ∙ ap (expand true) (chop-lem l)
    ∙ v.expanded

module _ (api : LuaApi) where
  -- How a line is compiled: as an expression, or else as a statement.
  abbrev or_statement : Text → Loaded api.Chunk → Loaded api.Chunk
  or_statement l (chunk f) = chunk f
  or_statement l (syntax_error text) = api.load l (codes "=stdin")
  or_statement l (load_error text) = api.load l (codes "=stdin")

  abbrev pub compiled : Text → Loaded api.Chunk
  compiled l = or_statement l (addreturn api l)

  -- The line is a whole statement, or wrong in a way that no further line mends.
  pub record IsStatement (l : Text) : Type 0 where
    pub line : IsLine l
    pub complete : incomplete api (compiled l) ≡ false

  -- The lines one after the other: the prompt, the run, and the results.
  unfoldable pub evaluate_all : List Text → W api → W api
  evaluate_all [] w = write (codes "\n") (prompted api true w)
  evaluate_all (l ∷ ls) w =
      evaluate_all ls
        (evaluate api (compiled l) (record (prompted api true w) { input = joined ls }))

  pushline-line :
      (l rest : Text) (w : W api)
      → IsLine l
      → w.input ≡ l ++ newline ∷ rest
      → pushline api true w ≡ some (l, record (prompted api true w) { input = rest })
  unfolding pushline
  pushline-line l rest w v e =
      ap (got_line api true (prompted api true w))
        (ap fgets e ∙ fgets-line l rest v.no_newline v.fits)
      ∙ ap (λ t. some (t, record (prompted api true w) { input = rest })) (buffer_line l v)

  try_return_complete :
      (fuel : ℕ) (l : Text) (w : W api) (result : Loaded api.Chunk)
      → incomplete api (or_statement l result) ≡ false
      → try_return api (suc fuel) l w result ≡ some (statement (or_statement l result) w)
  unfolding multiline
  try_return_complete fuel l w (chunk f) h = refl
  try_return_complete fuel l w (syntax_error text) h = rw h refl
  try_return_complete fuel l w (load_error text) h = rw h refl

  pub loadline-line :
      (fuel : ℕ) (l rest : Text) (w : W api)
      → IsStatement l
      → w.input ≡ l ++ newline ∷ rest
      → loadline api (suc fuel) w
        ≡ some (statement (compiled l) (record (prompted api true w) { input = rest }))
  unfolding loadline
  loadline-line fuel l rest w v e =
      ap (with_line api (suc fuel) w) (pushline-line l rest w v.line e)
      ∙ try_return_complete fuel l _ (addreturn api l) v.complete
