-- ===== src/Events/Framing.antt =====
-- The event callback of api/Server.h: an event's text as one message of an event stream.
use opcuatesttool.Prelude.{
  nat_eq, ◌≡◌, refl, Bool, false, [], ◌∷◌, ◌++◌, ◌==◌, if◌then◌else◌, arith, ◌∙◌, ap, beq_ne,
}
use opcuatesttool.Std.Text.{
  Text, codes, newline, Lacks, lines, lines-append, lines-nil, Lacks-append,
}
use opcuatesttool.Events.Dispatcher.{Dispatcher, send_event}

-- `std::regex_replace` of "\n+" by a backslash and an n. The flag says that the character before
-- was a newline, of the same run.
unfoldable pub replace_newlines : Bool → Text → Text
replace_newlines in_run [] = []
replace_newlines in_run (c ∷ s) =
    let rest = replace_newlines (c == newline) s in
    if c == newline then (if in_run then rest else b'\\' ∷ b'n' ∷ rest) else c ∷ rest

-- The JSON text of an event. Quotes in it are not escaped.
unfoldable pub event_message : Text → Text → Text
unfolding replace_newlines
event_message name text =
    codes "{\"event\": \""
    ++ name
    ++ codes "\", \"data\": \""
    ++ replace_newlines false text
    ++ codes "\"}"

-- `m_fEventCallback`.
unfoldable pub event_callback : Text → Text → Dispatcher → Dispatcher
unfolding event_message
event_callback name text d = send_event (event_message name text) d

replace_newlines-Lacks : (in_run : Bool) (s : Text) → Lacks newline (replace_newlines in_run s)
unfolding replace_newlines
replace_newlines-Lacks in_run [] = tt
replace_newlines-Lacks in_run (c ∷ s) = ground (arith, replace_newlines-Lacks (c == newline) s)

-- A text with no newline is sent as it is.
replace_newlines_id : (s : Text) → Lacks newline s → replace_newlines false s ≡ s
unfolding replace_newlines
replace_newlines_id [] l = refl
replace_newlines_id (c ∷ s) l = rw (beq_ne c newline l.0) (ap (◌∷◌ c) (replace_newlines_id s l.1))

event_message-Lacks :
    (name text : Text) → Lacks newline name → Lacks newline (event_message name text)
unfolding event_message
event_message-Lacks name text l =
    Lacks-append newline (before ++ replace_newlines false text) (codes "\"}")
      (Lacks-append newline before (replace_newlines false text)
        (Lacks-append newline (codes "{\"event\": \"" ++ name) (codes "\", \"data\": \"")
          (Lacks-append newline (codes "{\"event\": \"") name (omega arith) l) (omega arith))
        (replace_newlines-Lacks false text))
      (omega arith)
  where
    before : Text
    before = codes "{\"event\": \"" ++ name ++ codes "\", \"data\": \""

-- If the name of the event has no newline, what is sent for an event is one line of data and the
-- empty line that ends a message of the stream, whatever newlines the text of the event has.
pub event_callback_framing :
    (name text : Text) (d : Dispatcher)
    → Lacks newline name
    → lines (event_callback name text d).message
      ≡ (codes "data: " ++ event_message name text) ∷ [] ∷ []
unfolding event_callback send_event
event_callback_framing name text d l =
    lines-append line (newline ∷ []) (
      Lacks-append newline (codes "data: ") (event_message name text) (omega arith)
        (event_message-Lacks name text l))
    ∙ ap (◌∷◌ line) (lines-append [] [] tt ∙ ap (◌∷◌ []) lines-nil)
  where
    line : Text
    line = codes "data: " ++ event_message name text
