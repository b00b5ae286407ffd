-- ===== src/TestService/Signals.antt =====
-- The thread of testService/TestService.cpp that waits for SIGCHLD, and `handleSigChld`. SIGCHLD is
-- a standard signal: of several that come before it is accepted only one is kept. `wait` hands
-- over one process that has ended, and blocks as long as there is none.
use opcuatesttool.Prelude.{
  ℕ, nat_eq, int_eq, ◌+◌, ◌≤◌, ◌≡◌, Bool, true, false, List, ◌∷◌, ◌++◌, length, length-append,
  contains, ap, ℤ, arith,
}
use opcuatesttool.JobScheduler.Defs.{Fork}
use opcuatesttool.Api.Request.{RequestVariant}
use opcuatesttool.TestService.Monad.{Service, done}
use opcuatesttool.TestService.Defs.{Environment, api_callback, handle_sig_chld}

-- The service, the children that have ended and were not waited for, whether a SIGCHLD is pending,
-- and whether the thread has accepted one and is in `wait`.
pub record System : Type 0 where
  pub service : Service
  pub ended : List ℤ
  pub pending : Bool
  pub waiting : Bool

-- The number counts the signals that stand for no process that `wait` may hand over.
pub data Step : ℕ → System → System → Type 0 where
  -- A request is served.
  works :
      {s : System} (env : Environment) (request : RequestVariant)
      → Step 0 s (record s { service = (api_callback env request s.service).1 })
  -- A child ends: a runner, or the interpreter.
  ends :
      {s : System} (pid : ℤ)
      → contains pid s.ended ≡ false
      → Step 0 s (record s { ended = pid ∷ s.ended; pending = true })
  -- A child stops or goes on, or the shell of `system` ends in `cloneScriptRepo`, which has waited
  -- for it itself.
  signals : {s : System} → Step 1 s (record s { pending = true })
  -- `sigwait` accepts the signal.
  accepts :
      {s : System}
      → s.pending ≡ true
      → s.waiting ≡ false
      → Step 0 s (record s { pending = false; waiting = true })
  -- `wait` in `handleSigChld` hands over a process, and `jobFinished` handles it.
  handles :
      {s : System} (fork : Fork) (before after : List ℤ) (pid : ℤ) (service : Service)
      → s.waiting ≡ true
      → s.ended ≡ before ++ pid ∷ after
      → handle_sig_chld fork pid s.service ≡ (done tt, service)
      → Step 0 s (record s { service = service; ended = before ++ after; waiting = false })

-- Steps, with the sum of their numbers.
pub data Steps (s : System) : ℕ → System → Type 0 where
  stay : Steps s 0 s
  then_step : {t u : System} {n k : ℕ} → Steps s n t → Step k t u → Steps s (n + k) u

abbrev bit : Bool → ℕ
bit true = 1
bit false = 0

-- The calls of `wait` that will come, or that are there, for signals so far.
abbrev pub announced : System → ℕ
announced s = bit s.pending + bit s.waiting

-- Of the ended processes, `n` less `k` are left when every signal so far is handled.
abbrev Unannounced : ℕ → ℕ → System → Type 0
Unannounced n k s = n + announced s ≤ length s.ended + k

Step-Unannounced :
    (n m : ℕ) {k : ℕ} {s t : System} → Unannounced n m s → Step k s t → Unannounced n (m + k) t
Step-Unannounced n m u (works env request) = omega (arith, u)
Step-Unannounced n m u (ends pid c) = omega (arith, u)
Step-Unannounced n m u signals = omega (arith, u)
Step-Unannounced n m u (accepts p w) = omega (arith, u, ap bit p, ap bit w)
Step-Unannounced n m u (handles fork before after pid service w e h) = omega (
  arith,
  u,
  ap bit w,
  ap length e,
  length-append before (pid ∷ after),
  length-append before after,
)

-- Let `lost` more children have ended and not been waited for than there are calls of `wait` for
-- signals: those that are pending, and that of a thread that is in `wait`. Then after any steps of
-- the service there are still `lost` more, less at most the number of signals that came since for
-- anything else, as for the shell of `system`. In particular, of two processes that end before the
-- first signal is accepted, one is left until such a signal comes.
pub missed_signal :
    (lost : ℕ) {s : System} {extra : ℕ} {t : System}
    → lost + announced s ≤ length s.ended
    → Steps s extra t
    → lost + announced t ≤ length t.ended + extra
missed_signal lost few stay = omega (arith, few)
missed_signal lost few (then_step {n = n} r st) =
    Step-Unannounced lost n (missed_signal lost few r) st
