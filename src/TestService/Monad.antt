-- ===== src/TestService/Monad.antt =====
-- Calls that change the service and may fail. An exception leaves the changes made before it.
use opcuatesttool.Prelude.{Option, none, some, Exception, Result, ok, throw}
use opcuatesttool.Std.Text.{Text}
use opcuatesttool.Std.Files.{FileSystem}
use opcuatesttool.JobScheduler.Defs.{Host}

-- The scheduler with its surroundings, and what is pending as input of the terminal.
pub record Service : Type 0 where
  pub host : Host
  pub open host use *
  pub terminal : Text

-- The service after a process has written its files.
abbrev pub with_files : FileSystem → Service → Service
with_files fs s = record s { host = record (s.host) { files = fs } }

pub data Outcome {ℓ} (A : Type ℓ) : Type ℓ where
  done : A → Outcome A
  raised : Exception → Outcome A
  exited : Outcome A  -- `exit(EXIT_FAILURE)` in `schedule`
  no_fuel : Outcome A  -- the bound of a modelled loop was too small

abbrev pub M : Type 0 → Type 0
M A = Service → Outcome A × Service

abbrev pub pure : {A : Type 0} → A → M A
pure a s = (done a, s)

abbrev pub bind_outcome : {A B : Type 0} → (A → M B) → Outcome A → Service → Outcome B × Service
bind_outcome f (done a) s = f a s
bind_outcome f (raised e) s = (raised e, s)
bind_outcome f exited s = (exited, s)
bind_outcome f no_fuel s = (no_fuel, s)

infixl 5 ◌>>=◌ ◌>>◌
abbrev pub ◌>>=◌ : {A B : Type 0} → M A → (A → M B) → M B
◌>>=◌ m f s = bind_outcome f (m s).0 (m s).1

abbrev pub ◌>>◌ : {B : Type 0} → M (Unit {0}) → M B → M B
m >> k = m >>= λ _. k

-- A call that may throw and changes nothing.
abbrev pub lift : {A : Type 0} → Result A → M A
lift (ok a) s = (done a, s)
lift (throw e) s = (raised e, s)

abbrev pub or_exit : {A : Type 0} → Option A → Outcome A
or_exit none = exited
or_exit (some a) = done a

abbrev pub fueled : {A : Type 0} → Option A → Outcome A
fueled none = no_fuel
fueled (some a) = done a
