-- ===== src/Terminal/Examples.antt =====
-- The theorems of the terminal sessions at concrete runs.
use devops_agent.Prelude.{
  ◌++◌, ◌≤◌, ◌<◌, ◌≡◌, ◌↔◌, refl, true, false, ◌&&◌, not, some, map, List, [], ◌∷◌, length, arith,
  any,
}
use devops_agent.Text.{codes, text_eq}
use devops_agent.Dict.{lookup}
use devops_agent.Terminal.Session.{
  TerminalSession, connect_client, connect_shell, reader_round, new_session, is_connected,
  is_channel_open, connect_begin, is_connecting, is_alive,
}
use devops_agent.Terminal.Manager.{
  TerminalManager, no_sessions, is_held, is_expired, create_session, create, close_request,
  handle_all,
}
use devops_agent.Terminal.Capacity.{staying, create_session-free_place, handle_all-Bounded}
use devops_agent.Terminal.Kept.{create_session-is_held, create_session-keeps_connecting}
use devops_agent.Terminal.Lost.{close_while_connecting, close_while_connecting-lost}
use devops_agent.Terminal.Output.{
  OutputEvent, received, polled, typed, resized, join, frames, run_output,
}
use devops_agent.Terminal.Output.Schedule.{bytes_of, run_output_complete}

abbrev first : TerminalSession
first = connect_begin (new_session 1000 (codes "a1") 24 80)

-- one session is being connected, another one has had its time
abbrev two_sessions : TerminalManager
two_sessions = record {
  active = codes "a1" ∷ codes "b2" ∷ [];
  objects = (codes "a1", first) ∷ (codes "b2", new_session 800 (codes "b2") 24 80) ∷ [];
}

create_session-free_place_example :
    ((create_session 1030 (codes "c3") 24 80 two_sessions).0 ≡ true)
    ↔ (length (staying 1030 two_sessions) < 5)
create_session-free_place_example = create_session-free_place 1030 (codes "c3") 24 80 two_sessions

handle_all-Bounded_example :
    length
      (handle_all
        (create 1000 (codes "a1") 24 80
          ∷ create 1001 (codes "b2") 24 80
          ∷ close_request (codes "a1")
          ∷ [])
        no_sessions).active
    ≤ 5
handle_all-Bounded_example = handle_all-Bounded (
    create 1000 (codes "a1") 24 80
    ∷ create 1001 (codes "b2") 24 80
    ∷ close_request (codes "a1")
    ∷ [])

create_session-is_held_example :
    is_held (codes "b2") (create_session 1030 (codes "c3") 24 80 two_sessions).1.active ≡ (
      is_held (codes "b2") two_sessions.active
      && not (is_expired 1030 two_sessions.objects (codes "b2")))
unfolding text_eq
create_session-is_held_example =
    create_session-is_held 1030 (codes "c3") 24 80 two_sessions (codes "b2") refl

create_session-keeps_connecting_example :
    (is_held (codes "a1") (create_session 1030 (codes "c3") 24 80 two_sessions).1.active ≡ true)
    × (lookup (codes "a1") (create_session 1030 (codes "c3") 24 80 two_sessions).1.objects
        ≡ some first)
unfolding text_eq any lookup is_connecting connect_begin new_session
create_session-keeps_connecting_example =
    create_session-keeps_connecting 1030 (codes "c3") 24 80 two_sessions (codes "a1") first refl
      refl refl refl (omega arith)

close_while_connecting-lost_example :
    (is_held (codes "a1") (close_while_connecting (codes "a1") 1025 two_sessions).active ≡ false)
    × (t : TerminalSession) × (lookup
          (codes "a1")
          (close_while_connecting (codes "a1") 1025 two_sessions).objects
        ≡ some t)
    × (is_alive t ≡ true)
    × (t.ssh_client ≡ true)
unfolding text_eq any lookup
close_while_connecting-lost_example =
    close_while_connecting-lost (codes "a1") 1025 two_sessions first refl refl

-- one chunk is sent at once, two wait for the end
abbrev three_chunks : List OutputEvent
three_chunks =
    polled 1020
    ∷ typed 1020
    ∷ received 1021 (codes "ls")
    ∷ polled 1021
    ∷ received 1022 (codes "a b")
    ∷ resized 1022 40 120
    ∷ received 1023 (codes "$ ")
    ∷ []

run_output_complete_example :
    let x = run_output (λ bytes. bytes) three_chunks (connect_shell 1020 (connect_client first)) in
    join (x.0 ++ frames (λ bytes. bytes) 3 1025 (reader_round 1024 [] x.1))
    ≡ join (map (λ bytes. bytes) (bytes_of three_chunks))
unfolding connect_begin connect_client connect_shell new_session is_connected is_channel_open
run_output_complete_example =
    run_output_complete (λ bytes. bytes) 3 1024 1025 three_chunks
      (connect_shell 1020 (connect_client first)) refl refl refl (λ h. cc, (λ h. cc, (λ h. cc, tt)))
      (omega arith)
