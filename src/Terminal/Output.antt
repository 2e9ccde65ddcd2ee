-- ===== src/Terminal/Output.antt =====
-- How the output of a terminal gets to the browser: `read_output` of app/terminal/session.py and
-- `read_ssh_output` of app/terminal/routes.py, on what is in the queue; the socket stays open. The
-- decoding of UTF-8 with replacement is a parameter.
pub mod Complete
pub mod Schedule
use devops_agent.Prelude.{
  ℕ, zero, suc, Bool, true, false, ◌||◌, Option, none, some, List, [], ◌∷◌, ◌++◌, if◌then◌else◌,
}
use devops_agent.Text.{Text}
use devops_agent.Terminal.Session.{
  SessionState, connected, disconnected, TerminalSession, reader_round, write_input, resize,
}

-- a read waits on an empty queue
pub data Read : Type 0 where
  waits end_of_output : Read
  output : Text → Read

-- a round of the reader thread, with what `recv` gives; a round of the loop of `read_ssh_output`,
-- which waits if the queue is empty; input of the user, which is sent without an error; a new size
pub data OutputEvent : Type 0 where
  received : ℕ → Text → OutputEvent
  polled typed : ℕ → OutputEvent
  resized : ℕ → ℕ → ℕ → OutputEvent

unfoldable pub can_read : SessionState → Bool
can_read connected = true
can_read disconnected = true
can_read _ = false

-- `"".join(chunks)`
unfoldable pub join : List Text → Text
join [] = []
join (chunk ∷ chunks) = chunk ++ join chunks

module _ (decode : Text → Text) where
  unfoldable pub get_item : ℕ → List (Option Text) → TerminalSession → Read × TerminalSession
  get_item now [] s = (waits, s)
  get_item now (none ∷ q) s = (end_of_output, record s { queue = some q })
  get_item now (some bytes ∷ q) s =
      (output (decode bytes), record s { queue = some q; last_activity = now })

  unfoldable pub read_queue :
      ℕ → Option (List (Option Text)) → TerminalSession → Read × TerminalSession
  unfolding get_item
  read_queue now none s = (end_of_output, s)
  read_queue now (some q) s = get_item now q s

  unfoldable pub read_output : ℕ → TerminalSession → Read × TerminalSession
  unfolding can_read read_queue
  read_output now s = if can_read s.state then read_queue now s.queue s else (end_of_output, s)

  -- `while len(chunks) < 32`, with the number of chunks that still fit
  unfoldable pub drain : ℕ → List (Option Text) → List Text × List (Option Text)
  drain zero q = ([], q)
  drain (suc n) [] = ([], [])
  drain (suc n) (none ∷ q) = ([], q)
  drain (suc n) (some bytes ∷ q) = let rest = drain n q in (decode bytes ∷ rest.0, rest.1)

  -- the frame that begins with an output, and the session behind it
  unfoldable pub next_frame :
      Text → Option (List (Option Text)) → TerminalSession → Text × TerminalSession
  unfolding drain join
  next_frame first none s = (first, s)
  next_frame first (some q) s =
      let rest = drain 31 q in (join (first ∷ rest.0), record s { queue = some (rest.1) })

  -- what is sent behind a read, where `more` is the loop that goes on
  unfoldable pub send_frame : (TerminalSession → List Text) → Read × TerminalSession → List Text
  unfolding next_frame
  send_frame more (waits, s) = []
  send_frame more (end_of_output, s) = []
  send_frame more (output text, s) =
      let (frame, rest) = next_frame text s.queue s in frame ∷ more rest

  -- the frames that are sent until a read waits or ends, on fuel
  unfoldable pub frames : ℕ → ℕ → TerminalSession → List Text
  unfolding read_output send_frame
  frames zero now s = []
  frames (suc fuel) now s = send_frame (frames fuel now) (read_output now s)

  -- one round of the loop of `read_ssh_output`, for a read: what it sends, and the session behind it
  unfoldable pub round_of : Read × TerminalSession → List Text × TerminalSession
  unfolding next_frame
  round_of (waits, s) = ([], s)
  round_of (end_of_output, s) = ([], s)
  round_of (output text, s) = let (frame, rest) = next_frame text s.queue s in (frame ∷ [], rest)

  -- the reader thread and the loop take turns: the chunks come and are sent in any order
  unfoldable pub run_output : List OutputEvent → TerminalSession → List Text × TerminalSession
  unfolding reader_round read_output round_of write_input resize
  run_output [] s = ([], s)
  run_output (received now bytes ∷ events) s = run_output events (reader_round now bytes s)
  run_output (typed now ∷ events) s = run_output events (write_input now true s).1
  run_output (resized now rows cols ∷ events) s = run_output events (resize now rows cols s)
  run_output (polled now ∷ events) s =
      let (sent, s') = round_of (read_output now s) in
      let (later, s'') = run_output events s' in (sent ++ later, s'')
