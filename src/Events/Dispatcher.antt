-- ===== src/Events/Dispatcher.antt =====
-- `EventDispatcher` of api/Server.h: the threads that serve GET /api/events wait for the next event
-- on a condition variable. An `atomic_int` is its 32-bit pattern, so -1 is 2 ^ 32 - 1.
use opcuatesttool.Prelude.{
  ℕ, nat_eq, ◌+◌, ◌%◌, Bool, true, Option, none, some, List, [], ◌∷◌, ◌++◌, ◌==◌, if◌then◌else◌,
}
use opcuatesttool.Std.Text.{Text, codes}

abbrev pub word : ℕ
word = 4294967296

pub record Dispatcher : Type 0 where
  pub id : ℕ
  pub cid : ℕ
  pub message : Text

unfoldable pub init : Dispatcher
init = record { id = 0; cid = 4294967295; message = [] }

-- What a client receives, write by write, while it can be written to.
pub record Sink : Type 0 where
  pub is_writable : Bool
  pub written : List Text

-- `send_event`; every waiting thread is woken to test its condition again.
unfoldable pub send_event : Text → Dispatcher → Dispatcher
send_event message d = record {
  id = (d.id + 1) % word;
  cid = d.id;
  message = codes "data: " ++ message ++ codes "\n\n";
}

-- `wait_event` up to the wait: the number that the thread waits for.
unfoldable pub wait_begin : Dispatcher → ℕ
wait_begin d = d.id

-- The condition of the wait.
unfoldable pub is_ready : Dispatcher → ℕ → Bool
is_ready d id = d.cid == id

-- `wait_event` from the wait on; `none` is a thread that goes on waiting.
unfoldable pub wake : Dispatcher → ℕ → Sink → Option Sink
unfolding is_ready
wake d id sink =
    if is_ready d id
    then some (
        if sink.is_writable then record sink { written = sink.written ++ d.message ∷ [] } else sink)
    else none

-- What `wait_event` gives back to the content provider of GET /api/events: it always answers that more
-- will follow.
unfoldable pub provide : Dispatcher → ℕ → Sink → Option (Bool × Sink)
unfolding wake
provide d id sink = elim (wake d id sink) [ none ↦ none | some sink' ↦ some (true, sink') ]

-- Events sent one after the other, the first in front.
unfoldable pub send_all : List Text → Dispatcher → Dispatcher
send_all [] d = d
send_all (message ∷ messages) d = send_all messages (send_event message d)
