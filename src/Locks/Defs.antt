-- ===== src/Locks/Defs.antt =====
-- The threads of the service as what they have still to do with the mutexes, and their steps.
use opcuatesttool.Prelude.{
  ℕ, zero, suc, ◌≡◌, Bool, true, false, List, [], ◌∷◌, ◌++◌, ◌||◌, if◌then◌else◌, All,
}

pub data Mutex : Type 0 where
  scheduler dispatcher : Mutex

pub data Action : Type 0 where
  lock unlock : Mutex → Action
  wait : Action  -- `cv_.wait`, up to the release of the mutex
  sleep : Action  -- the rest of it, up to the end of the wait with the mutex locked again
  write : Action  -- to the client of GET /api/events

-- `create`; a guard unlocks at the end.
unfoldable pub creating : List Action
creating = lock scheduler ∷ unlock scheduler ∷ []

-- `send_event`.
unfoldable pub sending : List Action
sending = lock dispatcher ∷ unlock dispatcher ∷ []

-- `jobFinished`: if the process is that of a job, the callback sends an event.
unfoldable pub finishing : Bool → List Action
unfolding sending
finishing found = lock scheduler ∷ (if found then sending else []) ++ unlock scheduler ∷ []

-- `wait_event`; a client that cannot be written to gets nothing.
unfoldable pub waiting : (is_writable : Bool) → List Action
waiting is_writable =
    lock dispatcher ∷ wait ∷ (if is_writable then write ∷ [] else []) ++ unlock dispatcher ∷ []

pub data Operation : Type 0 where
  create : Operation
  job_finished : Bool → Operation
  send_event : Operation
  wait_event : Bool → Operation

unfoldable pub program : Operation → List Action
unfolding creating sending finishing waiting
program create = creating
program (job_finished found) = finishing found
program send_event = sending
program (wait_event is_writable) = waiting is_writable

-- The mutexes that a thread holds, the last one in front.
pub record Thread : Type 0 where
  pub held : List Mutex
  pub todo : List Action

abbrev pub same : Mutex → Mutex → Bool
same scheduler scheduler = true
same dispatcher dispatcher = true
same _ _ = false

abbrev pub holds : Mutex → List Mutex → Bool
holds m [] = false
holds m (h ∷ held) = same h m || holds m held

-- No thread holds the mutex.
abbrev pub Free : Mutex → List Thread → Type 0
Free m = All (λ t. holds m t.held ≡ false)

-- A step of one thread beside the others. A wait may end at any time: the events are left out. A
-- write ends, if the client does not read by the timeout of the HTTP library.
pub data Move (others : List Thread) : Thread → Thread → Type 0 where
  locks :
      {held : List Mutex} {todo : List Action} (m : Mutex)
      → holds m held ≡ false
      → Free m others
      → Move others
          (record { held = held; todo = lock m ∷ todo })
          (record { held = m ∷ held; todo = todo })
  unlocks :
      {held : List Mutex} {todo : List Action} (m : Mutex)
      → Move others
          (record { held = m ∷ held; todo = unlock m ∷ todo })
          (record { held = held; todo = todo })
  falls_asleep :
      {held : List Mutex} {todo : List Action}
      → Move others
          (record { held = dispatcher ∷ held; todo = wait ∷ todo })
          (record { held = held; todo = sleep ∷ todo })
  wakes :
      {held : List Mutex} {todo : List Action}
      → holds dispatcher held ≡ false
      → Free dispatcher others
      → Move others
          (record { held = held; todo = sleep ∷ todo })
          (record { held = dispatcher ∷ held; todo = todo })
  writes :
      {held : List Mutex} {todo : List Action}
      → Move others
          (record { held = held; todo = write ∷ todo })
          (record { held = held; todo = todo })

-- One thread makes a step, or it has nothing to do and begins an operation.
pub data Step : List Thread → List Thread → Type 0 where
  moves :
      {t t' : Thread} (before after : List Thread)
      → Move (before ++ after) t t'
      → Step (before ++ t ∷ after) (before ++ t' ∷ after)
  begins :
      (before after : List Thread) (operation : Operation)
      → Step
          (before ++ record { held = []; todo = [] } ∷ after)
          (before ++ record { held = []; todo = program operation } ∷ after)

pub data Steps (start : List Thread) : List Thread → Type 0 where
  stay : Steps start start
  then_step : {ts ts' : List Thread} → Steps start ts → Step ts ts' → Steps start ts'

-- Threads that have not begun.
unfoldable pub idle_threads : ℕ → List Thread
idle_threads zero = []
idle_threads (suc n) = record { held = []; todo = [] } ∷ idle_threads n
