-- ===== src/Terminal/Session.antt =====
-- One SSH terminal (app/terminal/session.py, `TerminalSession`). The parts of `connect` between its
-- waits, and a round of the reader thread, are operations of their own; what the network does is an
-- argument. Times are arguments, in seconds. `send` and `recv` move bytes.
use devops_agent.Prelude.{
  ℕ, Bool, true, false, ◌&&◌, ◌||◌, not, Option, none, some, List, [], ◌∷◌, ◌++◌, if◌then◌else◌,
}
use devops_agent.Text.{Text}

pub data SessionState : Type 0 where
  connecting connected disconnected closed : SessionState

unfoldable pub is_connecting : SessionState → Bool
is_connecting connecting = true
is_connecting _ = false

unfoldable pub is_connected : SessionState → Bool
is_connected connected = true
is_connected _ = false

unfoldable pub is_closed : SessionState → Bool
is_closed closed = true
is_closed _ = false

-- `ssh_channel`: whether the channel that is there is closed
pub data Channel : Type 0 where
  no_channel : Channel
  channel : Bool → Channel

-- an item of the queue: bytes, or the sentinel none
pub record TerminalSession : Type 0 where
  pub id : Text
  pub state : SessionState
  pub created_at : ℕ
  pub last_activity : ℕ
  pub ssh_client : Bool
  pub ssh_channel : Channel
  pub rows : ℕ
  pub cols : ℕ
  pub queue : Option (List (Option Text))

unfoldable pub new_session : ℕ → Text → ℕ → ℕ → TerminalSession
new_session now session_id rows cols = record {
  id = session_id;
  state = connecting;
  created_at = now;
  last_activity = now;
  ssh_client = false;
  ssh_channel = no_channel;
  rows = rows;
  cols = cols;
  queue = none;
}

-- `connect` up to its first wait
unfoldable pub connect_begin : TerminalSession → TerminalSession
connect_begin s = record s { queue = some [] }

-- the client is there, up to the second wait
unfoldable pub connect_client : TerminalSession → TerminalSession
connect_client s = record s { ssh_client = true }

-- the channel is there, with its shell
unfoldable pub connect_shell : ℕ → TerminalSession → TerminalSession
connect_shell now s = record s {
  ssh_channel = channel false;
  state = connected;
  last_activity = now;
}

unfoldable pub connect_failed : TerminalSession → TerminalSession
connect_failed s = record s { state = disconnected }

-- `put_nowait`, if there is a queue
unfoldable pub put : Option Text → Option (List (Option Text)) → Option (List (Option Text))
put item none = none
put item (some q) = some (q ++ (item ∷ []))

unfoldable pub is_channel_open : Channel → Bool
is_channel_open no_channel = false
is_channel_open (channel is_channel_closed) = not is_channel_closed

-- the reader thread ends
unfoldable pub reader_end : TerminalSession → TerminalSession
unfolding put
reader_end s = record s { state = disconnected; queue = put none s.queue }

-- one round of the reader thread: `recv` gives bytes, none of them at the end
unfoldable pub reader_round : ℕ → Text → TerminalSession → TerminalSession
unfolding put reader_end is_connected is_channel_open
reader_round now [] s = reader_end s
reader_round now (c ∷ bytes) s =
    if is_connected s.state && is_channel_open s.ssh_channel
    then record s { queue = put (some (c ∷ bytes)) s.queue; last_activity = now }
    else reader_end s

unfoldable pub has_channel : Channel → Bool
has_channel no_channel = false
has_channel (channel _) = true

unfoldable pub resize : ℕ → ℕ → ℕ → TerminalSession → TerminalSession
unfolding has_channel is_connected
resize now rows cols s =
    let sized = record s { rows = rows; cols = cols } in
    if has_channel s.ssh_channel && is_connected s.state
    then record sized { last_activity = now }
    else sized

-- `sent` is whether `send` gives no error
unfoldable pub write_input : ℕ → Bool → TerminalSession → Bool × TerminalSession
unfolding has_channel is_connected
write_input now sent s =
    if not (has_channel s.ssh_channel) || not (is_connected s.state)
    then (false, s)
    else (if sent
        then (true, record s { last_activity = now })
        else (false, record s { state = disconnected }))

unfoldable pub is_alive : TerminalSession → Bool
unfolding is_channel_open is_connected
is_alive s = is_channel_open s.ssh_channel && is_connected s.state

-- with the sentinel that wakes a reader; the client and its channel are closed
unfoldable pub close_terminal : TerminalSession → TerminalSession
unfolding put
close_terminal s = record s {
  state = closed;
  queue = put none s.queue;
  ssh_channel = no_channel;
  ssh_client = false;
}
