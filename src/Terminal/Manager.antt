-- ===== src/Terminal/Manager.antt =====
-- The session manager (app/terminal/manager.py), in remote mode. Sessions are shared objects: the
-- manager, the task that connects one and its reader thread hold the same one. So `objects` is the
-- store of all sessions that were made, by identifier, and `active` the identifiers in `_sessions`.
-- Identifiers and times are arguments.
use devops_agent.Prelude.{
  ℕ, ◌+◌, Bool, true, false, not, Option, none, some, List, [], ◌∷◌, length, any, keep_if, ltb, leb,
  if◌then◌else◌,
}
use devops_agent.Text.{Text, text_eq}
use devops_agent.Dict.{Dict, lookup, insert}
use devops_agent.Terminal.Session.{
  TerminalSession, is_connecting, is_closed, new_session, connect_begin, connect_client,
  connect_shell, connect_failed, reader_round, resize, write_input, is_alive, close_terminal,
}

abbrev pub max_sessions : ℕ
max_sessions = 5

abbrev pub session_idle_timeout : ℕ
session_idle_timeout = 3600

abbrev pub session_max_lifetime : ℕ
session_max_lifetime = 28800

abbrev pub connect_grace_seconds : ℕ
connect_grace_seconds = 90

pub record TerminalManager : Type 0 where
  pub objects : Dict TerminalSession
  pub active : List Text

unfoldable pub no_sessions : TerminalManager
no_sessions = record { objects = []; active = [] }

unfoldable pub is_reapable : ℕ → TerminalSession → Bool
unfolding is_connecting is_closed is_alive
is_reapable now s =
    if is_connecting s.state
    then ltb (s.created_at + connect_grace_seconds) now
    else (if is_closed s.state
        then true
        else (if ltb (s.created_at + session_max_lifetime) now
            then true
            else (if ltb (s.last_activity + session_idle_timeout) now
                then true
                else not (is_alive s))))

abbrev pub is_held : Text → List Text → Bool
is_held session_id active = any (λ i. text_eq i session_id) active

-- `_sessions.pop(session_id, None)`
unfoldable pub forget : Text → List Text → List Text
forget session_id active = keep_if (λ i. not (text_eq i session_id)) active

-- a change of the object with an identifier
unfoldable pub change_in :
    Text → (TerminalSession → TerminalSession) → Dict TerminalSession → Dict TerminalSession
change_in session_id f [] = []
change_in session_id f ((i, s) ∷ objects) =
    if text_eq i session_id then (i, f s) ∷ objects else (i, s) ∷ change_in session_id f objects

unfoldable pub change_session :
    Text → (TerminalSession → TerminalSession) → TerminalManager → TerminalManager
unfolding change_in
change_session session_id f m = record m { objects = change_in session_id f m.objects }

unfoldable pub close_session : Text → TerminalManager → Bool × TerminalManager
unfolding any forget change_in close_terminal
close_session session_id m =
    if is_held session_id m.active
    then (
      true,
      record {
        active = forget session_id m.active;
        objects = change_in session_id close_terminal m.objects;
      },
    )
    else (false, m)

unfoldable pub close_each : List Text → TerminalManager → TerminalManager
unfolding close_session
close_each [] m = m
close_each (i ∷ is) m = close_each is (close_session i m).1

unfoldable pub close_all : TerminalManager → TerminalManager
unfolding close_each
close_all m = record { active = []; objects = (close_each m.active m).objects }

reapable_object : ℕ → Option TerminalSession → Bool
unfolding is_reapable
reapable_object now none = false
reapable_object now (some s) = is_reapable now s

-- whether the session with an identifier may be closed
unfoldable pub is_expired : ℕ → Dict TerminalSession → Text → Bool
unfolding lookup reapable_object
is_expired now objects session_id = reapable_object now (lookup session_id objects)

unfoldable pub cleanup_expired : ℕ → TerminalManager → TerminalManager
unfolding close_each is_expired
cleanup_expired now m = close_each (keep_if (is_expired now m.objects) m.active) m

-- `_sessions[id] = session`
unfoldable pub hold : Text → List Text → List Text
hold session_id [] = session_id ∷ []
hold session_id (i ∷ is) = if text_eq i session_id then i ∷ is else i ∷ hold session_id is

unfoldable pub add_session : ℕ → Text → ℕ → ℕ → TerminalManager → TerminalManager
unfolding insert hold new_session
add_session now session_id rows cols m = record {
  objects = insert session_id (new_session now session_id rows cols) m.objects;
  active = hold session_id m.active;
}

-- false is the `RuntimeError` that there are too many sessions
unfoldable pub create_session : ℕ → Text → ℕ → ℕ → TerminalManager → Bool × TerminalManager
unfolding cleanup_expired add_session
create_session now session_id rows cols m =
    let cleaned = cleanup_expired now m in
    if leb max_sessions (length cleaned.active)
    then (false, cleaned)
    else (true, add_session now session_id rows cols cleaned)

-- what happens to one session outside the manager
pub data SessionEvent : Type 0 where
  begin client_there : SessionEvent
  shell_there : ℕ → SessionEvent
  received : ℕ → Text → SessionEvent
  resized : ℕ → ℕ → ℕ → SessionEvent
  wrote : ℕ → Bool → SessionEvent

unfoldable pub session_step : SessionEvent → TerminalSession → TerminalSession
unfolding connect_begin connect_client connect_shell reader_round resize write_input
session_step begin s = connect_begin s
session_step client_there s = connect_client s
session_step (shell_there now) s = connect_shell now s
session_step (received now bytes) s = reader_round now bytes s
session_step (resized now rows cols) s = resize now rows cols s
session_step (wrote now sent) s = (write_input now sent s).1

-- `_connect_session` when `connect` raises: the session is dropped and closed, held or not
unfoldable pub connect_session_failed : Text → TerminalManager → TerminalManager
unfolding forget change_in connect_failed close_terminal
connect_session_failed session_id m = record {
  active = forget session_id m.active;
  objects = change_in session_id (λ s. close_terminal (connect_failed s)) m.objects;
}

-- the end of `terminal_ws` of app/terminal/routes.py
unfoldable pub socket_gone : Text → TerminalManager → TerminalManager
unfolding change_session close_terminal close_session
socket_gone session_id m = (close_session session_id (change_session session_id close_terminal m)).1

pub data TerminalEvent : Type 0 where
  create : ℕ → Text → ℕ → ℕ → TerminalEvent
  on_session : Text → SessionEvent → TerminalEvent
  failed_connect disconnect close_request : Text → TerminalEvent
  shutdown : TerminalEvent

unfoldable pub handle : TerminalEvent → TerminalManager → TerminalManager
unfolding create_session change_session session_step connect_session_failed socket_gone
    close_session close_all
handle (create now session_id rows cols) m = (create_session now session_id rows cols m).1
handle (on_session session_id e) m = change_session session_id (session_step e) m
handle (failed_connect session_id) m = connect_session_failed session_id m
handle (disconnect session_id) m = socket_gone session_id m
handle (close_request session_id) m = (close_session session_id m).1
handle shutdown m = close_all m

unfoldable pub handle_all : List TerminalEvent → TerminalManager → TerminalManager
unfolding handle
handle_all [] m = m
handle_all (e ∷ es) m = handle_all es (handle e m)
