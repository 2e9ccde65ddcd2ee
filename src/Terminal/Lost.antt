-- ===== src/Terminal/Lost.antt =====
-- A connect that outlives its session: closing does not stop the task that connects.
use devops_agent.Prelude.{ℕ, ◌≡◌, refl, ap, ◌∙◌, true, false, not, some, List, [], ◌∷◌, arith}
use devops_agent.Text.{Text, text_eq, text_eq_refl}
use devops_agent.Dict.{lookup}
use devops_agent.Terminal.Session.{
  TerminalSession, connect_client, connect_shell, is_alive, is_connected, is_channel_open,
  close_terminal,
}
use devops_agent.Terminal.Manager.{
  TerminalManager, is_held, forget, change_session, close_session, session_step, close_request,
  on_session, client_there, shell_there, handle, handle_all,
}
use devops_agent.Terminal.Capacity.{is_held-keep_if, close_session-active}
use devops_agent.Terminal.Kept.{lookup-change_in_self}

is_held-forget : (i : Text) (xs : List Text) → is_held i (forget i xs) ≡ false
unfolding forget
is_held-forget i xs = is_held-keep_if (λ k. not (text_eq k i)) i xs ∙ ground (arith, text_eq_refl i)

close_session-lookup_self :
    (i : Text) (m : TerminalManager) (s : TerminalSession)
    → is_held i m.active ≡ true
    → lookup i m.objects ≡ some s
    → lookup i (close_session i m).1.objects ≡ some (close_terminal s)
unfolding close_session
close_session-lookup_self i m s held e =
    rw held (lookup-change_in_self i close_terminal s m.objects e)

-- the session is closed, then the client and the shell of its connect are there
abbrev pub close_while_connecting : Text → ℕ → TerminalManager → TerminalManager
close_while_connecting session_id now m =
    handle_all
      (close_request session_id
        ∷ on_session session_id client_there
        ∷ on_session session_id (shell_there now)
        ∷ [])
      m

-- If a session is closed while its SSH client is being connected, and the connect then succeeds, no
-- one holds the session, and it is alive with an open client.
pub close_while_connecting-lost :
    (session_id : Text) (now : ℕ) (m : TerminalManager) (s : TerminalSession)
    → is_held session_id m.active ≡ true
    → lookup session_id m.objects ≡ some s
    → (is_held session_id (close_while_connecting session_id now m).active ≡ false)
      × (t : TerminalSession) × (lookup session_id (close_while_connecting session_id now m).objects
          ≡ some t)
      × (is_alive t ≡ true)
      × (t.ssh_client ≡ true)
unfolding handle_all handle change_session session_step connect_client connect_shell is_alive
    is_connected is_channel_open
close_while_connecting-lost session_id now m s held e =
    let step1 = close_session-lookup_self session_id m s held e in
    let step2 = lookup-change_in_self session_id connect_client (close_terminal s) _ step1 in
    let step3 =
      lookup-change_in_self session_id (connect_shell now) (connect_client (close_terminal s)) _
        step2 in
    (
      ap (is_held session_id) (close_session-active session_id m)
          ∙ is_held-forget session_id m.active,
      connect_shell now (connect_client (close_terminal s)),
      step3,
      refl,
      refl,
    )
