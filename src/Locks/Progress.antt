-- ===== src/Locks/Progress.antt =====
-- The threads of the service never wait for each other for ever.
use opcuatesttool.Prelude.{
  ℕ, subst, ◌≡◌, refl, ◌⊎◌, inl, inr, true, false, Bool-cases, List, [], ◌∷◌, ◌++◌, All,
}
use opcuatesttool.Locks.Defs.{
  Mutex, scheduler, dispatcher, Action, lock, unlock, wait, sleep, write, Thread, holds, Free, Move,
  locks, unlocks, falls_asleep, writes, Steps, idle_threads,
}
use opcuatesttool.Locks.Stages.{
  Stage, AtStage, Steps-Stage, idle, wants_scheduler, nested, tells, leaves_scheduler,
  wants_dispatcher, waits, asleep, delivers, leaves_dispatcher,
}
use opcuatesttool.Locks.Lists.{Found, find, All-at, All-beside}

-- A thread with nothing to do, or that waits for an event.
abbrev IsRestingTodo : List Action → Type 0
IsRestingTodo [] = Unit {0}
IsRestingTodo (sleep ∷ todo) = Unit {0}
IsRestingTodo _ = ⊥

abbrev pub IsResting : Thread → Type 0
IsResting t = IsRestingTodo t.todo

-- A thread that does not rest can make a step.
pub record CanMove (ts : List Thread) : Type 0 where
  pub before : List Thread
  pub after : List Thread
  pub thread : Thread
  pub thread' : Thread
  pub parts : ts ≡ before ++ thread ∷ after
  pub is_busy : ¬ IsResting thread
  pub move : Move (before ++ after) thread thread'

abbrev Moves : List Thread → List Mutex → List Action → Type 0
Moves others held todo =
    (¬ IsRestingTodo todo) × (t' : Thread) × Move others (record { held = held; todo = todo }) t'

-- Who holds the mutex of the dispatcher can go on.
dispatcher-Moves :
    {others : List Thread} {held : List Mutex} {todo : List Action}
    → Stage held todo
    → holds dispatcher held ≡ true
    → Moves others held todo
dispatcher-Moves idle h = cc
dispatcher-Moves (wants_scheduler st) h = cc
dispatcher-Moves nested h = cc
dispatcher-Moves tells h = (λ r. r, _, unlocks dispatcher)
dispatcher-Moves leaves_scheduler h = cc
dispatcher-Moves (wants_dispatcher st) h = cc
dispatcher-Moves (waits st) h = (λ r. r, _, falls_asleep)
dispatcher-Moves (asleep st) h = cc
dispatcher-Moves delivers h = (λ r. r, _, writes)
dispatcher-Moves leaves_dispatcher h = (λ r. r, _, unlocks dispatcher)

-- If no other thread holds the mutex of the dispatcher, who holds that of the scheduler can go on.
scheduler-Moves :
    {others : List Thread} {held : List Mutex} {todo : List Action}
    → Stage held todo
    → holds scheduler held ≡ true
    → Free dispatcher others
    → Moves others held todo
scheduler-Moves idle h d = cc
scheduler-Moves (wants_scheduler st) h d = cc
scheduler-Moves nested h d = (λ r. r, _, locks dispatcher refl d)
scheduler-Moves tells h d = (λ r. r, _, unlocks dispatcher)
scheduler-Moves leaves_scheduler h d = (λ r. r, _, unlocks scheduler)
scheduler-Moves (wants_dispatcher st) h d = cc
scheduler-Moves (waits st) h d = cc
scheduler-Moves (asleep st) h d = cc
scheduler-Moves delivers h d = cc
scheduler-Moves leaves_dispatcher h d = cc

-- If no thread holds a mutex, who does not rest can go on.
Free-Moves :
    {others : List Thread} {held : List Mutex} {todo : List Action}
    → Stage held todo
    → (¬ IsRestingTodo todo)
    → Free scheduler others
    → Free dispatcher others
    → Moves others held todo
Free-Moves idle busy s d = absurd (busy tt)
Free-Moves (wants_scheduler st) busy s d = (λ r. r, _, locks scheduler refl s)
Free-Moves nested busy s d = (λ r. r, _, locks dispatcher refl d)
Free-Moves tells busy s d = (λ r. r, _, unlocks dispatcher)
Free-Moves leaves_scheduler busy s d = (λ r. r, _, unlocks scheduler)
Free-Moves (wants_dispatcher st) busy s d = (λ r. r, _, locks dispatcher refl d)
Free-Moves (waits st) busy s d = (λ r. r, _, falls_asleep)
Free-Moves (asleep st) busy s d = absurd (busy tt)
Free-Moves delivers busy s d = (λ r. r, _, writes)
Free-Moves leaves_dispatcher busy s d = (λ r. r, _, unlocks dispatcher)

IsResting-or_busy : (t : Thread) → (¬ IsResting t) ⊎ IsResting t
IsResting-or_busy t = cases t.todo
  where
    cases : (todo : List Action) → (¬ IsRestingTodo todo) ⊎ IsRestingTodo todo
    cases [] = inr tt
    cases (lock m ∷ todo) = inl (λ r. r)
    cases (unlock m ∷ todo) = inl (λ r. r)
    cases (wait ∷ todo) = inl (λ r. r)
    cases (sleep ∷ todo) = inr tt
    cases (write ∷ todo) = inl (λ r. r)

can_move :
    (P : Thread → Type 0) (ts : List Thread)
    → All AtStage ts
    → (f : Found P ts)
    → (AtStage f.thread → Moves (f.before ++ f.after) f.thread.held f.thread.todo)
    → CanMove ts
can_move P ts v f go =
    let (busy, t', m) =
      go (All-at AtStage f.before f.after f.thread (subst (All AtStage) f.parts v)) in
    record {
      before = f.before;
      after = f.after;
      thread = f.thread;
      thread' = t';
      parts = f.parts;
      is_busy = busy;
      move = m;
    }

holder : (m : Mutex) (ts : List Thread) → Free m ts ⊎ Found (λ t. holds m t.held ≡ true) ts
holder m ts = find ts (λ t. Bool-cases (holds m t.held))

-- Those beside a thread of the list hold nothing that no thread of the list holds.
Free-beside :
    {P : Thread → Type 0} (m : Mutex) (ts : List Thread) (f : Found P ts)
    → Free m ts
    → Free m (f.before ++ f.after)
Free-beside m ts f free =
    All-beside (λ t. holds m t.held ≡ false) f.before f.after f.thread (subst (Free m) f.parts free)

progress_with : (ts : List Thread) → All AtStage ts → All IsResting ts ⊎ CanMove ts
progress_with ts v = elim (holder dispatcher ts) [
  | inr f ↦ inr (can_move _ ts v f (λ st. dispatcher-Moves st f.holds_it))
  | inl free_d ↦ elim (holder scheduler ts) [
    | inr f ↦ inr (
        can_move _ ts v f
          (λ st. scheduler-Moves st f.holds_it (Free-beside dispatcher ts f free_d)))
    | inl free_s ↦ elim (find ts IsResting-or_busy) [
      | inl resting ↦ inl resting
      | inr f ↦ inr (
          can_move _ ts v f (λ st.
            Free-Moves st f.holds_it (Free-beside scheduler ts f free_s)
              (Free-beside dispatcher ts f free_d)))
    ]
  ]
]

-- From any number of threads that have not begun, where the threads begin any sequence of
-- `create`, `jobFinished`, `send_event` and `wait_event` and make their steps in any order: at any
-- time all threads rest, that is, have nothing to do or wait for an event, or a thread that does
-- not rest can make a step. So the two mutexes never make threads wait for each other for ever.
pub progress :
    (n : ℕ) (ts : List Thread) → Steps (idle_threads n) ts → All IsResting ts ⊎ CanMove ts
progress n ts r = progress_with ts (Steps-Stage n r)
