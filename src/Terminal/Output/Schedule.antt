-- ===== src/Terminal/Output/Schedule.antt =====
-- Whatever the turns of the reader thread and of the loop that sends, no chunk is lost.
use devops_agent.Prelude.{
  ℕ, ◌≤◌, ◌≡◌, ◌≢◌, refl, sym, ap, ◌∙◌, true, ◌&&◌, none, some, List, [], ◌∷◌, ◌++◌, length, map,
  All, append_assoc, append-nil, length-append, if_true, subst, arith, not, ◌||◌, Bool-cases, inl,
  inr,
}
use mathlib.Core.List.{map-append}
use devops_agent.Text.{Text}
use devops_agent.Terminal.Session.{
  SessionState, TerminalSession, is_connected, is_channel_open, put, reader_end, reader_round,
  has_channel, write_input, resize,
}
use devops_agent.Terminal.Output.{
  OutputEvent, received, polled, typed, resized, can_read, get_item, next_frame, read_output, join,
  frames, round_of, run_output,
}
use devops_agent.Terminal.Output.Complete.{
  queued, queued-append, join-append, drain-cases, read_output-queue, frames_complete,
}

-- the bytes that the reader thread received
abbrev pub bytes_of : List OutputEvent → List Text
bytes_of [] = []
bytes_of (received now bytes ∷ events) = bytes ∷ bytes_of events
bytes_of (polled now ∷ events) = bytes_of events
bytes_of (typed now ∷ events) = bytes_of events
bytes_of (resized now rows cols ∷ events) = bytes_of events

-- a connected session with an open channel, whose queue has these chunks
abbrev Holds : List Text → TerminalSession → Type 0
Holds chunks s =
    (is_connected s.state ≡ true)
    × (is_channel_open s.ssh_channel ≡ true)
    × (s.queue ≡ some (queued chunks 0))

reader_round-Holds :
    (now : ℕ) (bytes : Text) (chunks : List Text) (s : TerminalSession)
    → bytes ≢ []
    → Holds chunks s
    → Holds (chunks ++ (bytes ∷ [])) (reader_round now bytes s)
unfolding reader_round put
reader_round-Holds now [] chunks s some_bytes h = absurd (some_bytes refl)
reader_round-Holds now (c ∷ bytes) chunks s some_bytes (on, is_there, e) =
    let after : TerminalSession = record s {
      queue = put (some (c ∷ bytes)) s.queue;
      last_activity = now;
    } in
    let round : reader_round now (c ∷ bytes) s ≡ after =
      if_true {b = is_connected s.state && is_channel_open s.ssh_channel} after (reader_end s)
        (rw (on, is_there) refl) in
    let held : after.queue ≡ some (queued (chunks ++ ((c ∷ bytes) ∷ [])) 0) =
      ap (put (some (c ∷ bytes))) e ∙ ap some (sym (queued-append chunks ((c ∷ bytes) ∷ []) 0)) in
    subst (Holds (chunks ++ ((c ∷ bytes) ∷ []))) (sym round) (on, is_there, held)

write_input-Holds :
    (now : ℕ) (chunks : List Text) (s : TerminalSession)
    → Holds chunks s
    → Holds chunks (write_input now true s).1
unfolding write_input
write_input-Holds now chunks s h =
    elim (Bool-cases (not (has_channel s.ssh_channel) || not (is_connected s.state))) [
      | inl idle ↦ rw idle h
      | inr live ↦ rw live h
    ]

resize-Holds :
    (now rows cols : ℕ) (chunks : List Text) (s : TerminalSession)
    → Holds chunks s
    → Holds chunks (resize now rows cols s)
unfolding resize
resize-Holds now rows cols chunks s h =
    elim (Bool-cases (has_channel s.ssh_channel && is_connected s.state)) [
      | inl live ↦ rw live h
      | inr idle ↦ rw idle h
    ]

connected-can_read : (state : SessionState) → is_connected state ≡ true → can_read state ≡ true
unfolding is_connected can_read
connected-can_read state on = ground arith

module _ (decode : Text → Text) where
  -- what is sent are the first of the chunks, and the others stay
  Sends : List Text → List Text × TerminalSession → Type 0
  Sends chunks x =
      (left : List Text) × Holds left x.1
      × ((join x.0 ++ join (map decode left)) ≡ join (map decode chunks))
      × (length left ≤ length chunks)

  mapped :
      (xs ys : List Text)
      → join (map decode (xs ++ ys)) ≡ join (map decode xs) ++ join (map decode ys)
  mapped xs ys = ap join (map-append decode xs ys) ∙ join-append (map decode xs) (map decode ys)

  framed-Sends :
      (now : ℕ) (chunks : List Text) (s : TerminalSession)
      → Holds chunks s
      → Sends chunks (round_of decode (get_item decode now (queued chunks 0) s))
  unfolding Sends round_of get_item next_frame join
  framed-Sends now [] s h = ([], h, refl, omega arith)
  framed-Sends now (c ∷ chunks) s (on, is_there, e) =
      let (taken, left, j, split, fst_eq, snd_eq, few, ends) = drain-cases decode 31 chunks 0 in
      let none_left : j ≡ 0 = omega (arith, ends) in
      (
        left,
        (on, is_there, ap some snd_eq ∙ ap (λ k. some (queued left k)) none_left),
        ap (λ d. ((decode c ++ join d) ++ []) ++ join (map decode left)) fst_eq
            ∙ ap (λ t. t ++ join (map decode left))
                (append-nil (decode c ++ join (map decode taken)))
            ∙ append_assoc (decode c) (join (map decode taken)) (join (map decode left))
            ∙ ap (λ t. decode c ++ t) (sym (mapped taken left))
            ∙ ap (λ cs. decode c ++ join (map decode cs)) (sym split),
        omega arith,
      )

  polled-Sends :
      (now : ℕ) (chunks : List Text) (s : TerminalSession)
      → Holds chunks s
      → Sends chunks (round_of decode (read_output decode now s))
  polled-Sends now chunks s (on, is_there, e) =
      subst (λ x. Sends chunks (round_of decode x))
        (sym (read_output-queue decode now (queued chunks 0) s (connected-can_read s.state on) e))
        (framed-Sends now chunks s (on, is_there, e))

  -- The frames of any turns, and the chunks that still wait, are all the chunks in their order.
  run_output-Sends :
      (events : List OutputEvent) (chunks : List Text) (s : TerminalSession)
      → All (λ bytes. bytes ≢ []) (bytes_of events)
      → Holds chunks s
      → Sends (chunks ++ bytes_of events) (run_output decode events s)
  unfolding Sends run_output join
  run_output-Sends [] chunks s some_bytes h = (
    chunks,
    h,
    ap (λ cs. join (map decode cs)) (sym (append-nil chunks)),
    omega (arith, ap length (append-nil chunks)),
  )
  run_output-Sends (received now bytes ∷ events) chunks s some_bytes h =
      subst (λ cs. Sends cs (run_output decode events (reader_round now bytes s)))
        (append_assoc chunks (bytes ∷ []) (bytes_of events))
        (run_output-Sends events (chunks ++ (bytes ∷ [])) (reader_round now bytes s) some_bytes.1
          (reader_round-Holds now bytes chunks s some_bytes.0 h))
  run_output-Sends (typed now ∷ events) chunks s some_bytes h =
      run_output-Sends events chunks (write_input now true s).1 some_bytes
        (write_input-Holds now chunks s h)
  run_output-Sends (resized now rows cols ∷ events) chunks s some_bytes h =
      run_output-Sends events chunks (resize now rows cols s) some_bytes
        (resize-Holds now rows cols chunks s h)
  run_output-Sends (polled now ∷ events) chunks s some_bytes h =
      let (left, held, sent, few) = polled-Sends now chunks s h in
      let now_sent = round_of decode (read_output decode now s) in
      let (rest, held', sent', few') = run_output-Sends events left now_sent.1 some_bytes held in
      let later = run_output decode events now_sent.1 in
      (
        rest,
        held',
        ap (λ t. t ++ join (map decode rest)) (join-append now_sent.0 later.0)
            ∙ append_assoc (join now_sent.0) (join later.0) (join (map decode rest))
            ∙ ap (λ t. join now_sent.0 ++ t) (sent' ∙ mapped left (bytes_of events))
            ∙ sym (
                append_assoc (join now_sent.0) (join (map decode left))
                  (join (map decode (bytes_of events))))
            ∙ ap (λ t. t ++ join (map decode (bytes_of events))) sent
            ∙ sym (mapped chunks (bytes_of events)),
        omega (
          arith,
          few,
          few',
          length-append left (bytes_of events),
          length-append chunks (bytes_of events),
        ),
      )

-- The output of a connected session with an open channel and an empty queue, that nobody closes:
-- whatever the turns in which the reader thread receives chunks and the loop sends what has come,
-- with input that is sent and changes of the size between them, once the reader has come to its end
-- the frames that were sent, and those that the loop sends then, are, joined, the chunks in the order
-- in which they were received, each decoded by itself. A frame for each chunk is enough fuel for the
-- loop.
pub run_output_complete :
    (decode : Text → Text) (fuel last later : ℕ) (events : List OutputEvent) (s : TerminalSession)
    → is_connected s.state ≡ true
    → is_channel_open s.ssh_channel ≡ true
    → s.queue ≡ some []
    → All (λ bytes. bytes ≢ []) (bytes_of events)
    → length (bytes_of events) ≤ fuel
    → let x = run_output decode events s in
      join (x.0 ++ frames decode fuel later (reader_round last [] x.1))
      ≡ join (map decode (bytes_of events))
unfolding Sends reader_round reader_end put can_read
run_output_complete decode fuel last later events s on is_there e some_bytes enough =
    let (left, (on', is_there', held), sent, few) =
      run_output-Sends decode events [] s some_bytes (on, is_there, e) in
    let x = run_output decode events s in
    join-append x.0 (frames decode fuel later (reader_end x.1))
    ∙ ap (λ t. join x.0 ++ t)
        (frames_complete decode fuel later left 1 (reader_end x.1) refl
          (ap (put none) held
            ∙ ap some (sym (queued-append left [] 1) ∙ ap (λ cs. queued cs 1) (append-nil left)))
          (omega (arith, few, enough)))
    ∙ sent
