-- ===== src/Terminal/Output/Complete.antt =====
-- The frames lose nothing of what is in the queue, and keep its order.
use devops_agent.Prelude.{
  ℕ, zero, suc, ◌≤◌, ◌≡◌, refl, sym, ap, ◌∙◌, true, Option, none, some, List, [], ◌∷◌, ◌++◌, length,
  map, append_assoc, if_true, arith,
}
use mathlib.Core.List.{map-append}
use devops_agent.Text.{Text}
use devops_agent.Terminal.Session.{TerminalSession}
use devops_agent.Terminal.Output.{
  can_read, get_item, read_queue, send_frame, read_output, drain, join, frames,
}

-- what is left in a queue behind the output
abbrev pub sentinels : ℕ → List (Option Text)
sentinels zero = []
sentinels (suc n) = none ∷ sentinels n

-- a queue of chunks and then sentinels
abbrev pub queued : List Text → ℕ → List (Option Text)
queued [] n = sentinels n
queued (bytes ∷ chunks) n = some bytes ∷ queued chunks n

pub queued-append : (xs ys : List Text) (n : ℕ) → queued (xs ++ ys) n ≡ (queued xs 0 ++ queued ys n)
queued-append [] ys n = refl
queued-append (x ∷ xs) ys n = ap (λ q. some x ∷ q) (queued-append xs ys n)

pub join-append : (xs ys : List Text) → join (xs ++ ys) ≡ (join xs ++ join ys)
unfolding join
join-append [] ys = refl
join-append (x ∷ xs) ys =
    ap (λ t. x ++ t) (join-append xs ys) ∙ sym (append_assoc x (join xs) (join ys))

module _ (decode : Text → Text) where
  pub drain-cases :
      (n : ℕ) (chunks : List Text) (k : ℕ)
      → (taken : List Text) × (left : List Text) × (j : ℕ) × (chunks ≡ (taken ++ left))
        × ((drain decode n (queued chunks k)).0 ≡ map decode taken)
        × ((drain decode n (queued chunks k)).1 ≡ queued left j)
        × (length left ≤ length chunks)
        × (j ≤ k)
  unfolding drain
  drain-cases zero chunks k = ([], chunks, k, refl, refl, refl, omega arith, omega arith)
  drain-cases (suc n) [] zero = ([], [], 0, refl, refl, refl, omega arith, omega arith)
  drain-cases (suc n) [] (suc k) = ([], [], k, refl, refl, refl, omega arith, omega arith)
  drain-cases (suc n) (c ∷ chunks) k =
      let (taken, left, j, split, fst_eq, snd_eq, few, fewer_ends) = drain-cases n chunks k in
      (
        c ∷ taken,
        left,
        j,
        ap (λ cs. c ∷ cs) split,
        ap (λ cs. decode c ∷ cs) fst_eq,
        snd_eq,
        omega arith,
        fewer_ends,
      )

  -- the session behind a frame
  abbrev pub behind : ℕ → List (Option Text) → TerminalSession → TerminalSession
  behind now q s = record s { queue = some q; last_activity = now }

  pub read_output-queue :
      (now : ℕ) (q : List (Option Text)) (s : TerminalSession)
      → can_read s.state ≡ true
      → s.queue ≡ some q
      → read_output decode now s ≡ get_item decode now q s
  unfolding read_output
  read_output-queue now q s ok e = if_true _ _ ok ∙ ap (λ x. read_queue decode now x s) e

  pub frames_complete :
      (fuel now : ℕ) (chunks : List Text) (n : ℕ) (s : TerminalSession)
      → can_read s.state ≡ true
      → s.queue ≡ some (queued chunks n)
      → length chunks ≤ fuel
      → join (frames decode fuel now s) ≡ join (map decode chunks)
  unfolding frames get_item join
  frames_complete zero now [] n s ok e few = refl
  frames_complete zero now (c ∷ chunks) n s ok e few = absurd (omega arith)
  frames_complete (suc fuel) now [] zero s ok e few =
      ap (λ r. join (send_frame decode (frames decode fuel now) r))
        (read_output-queue now [] s ok e)
  frames_complete (suc fuel) now [] (suc n) s ok e few =
      ap (λ r. join (send_frame decode (frames decode fuel now) r))
        (read_output-queue now (queued [] (suc n)) s ok e)
  frames_complete (suc fuel) now (c ∷ chunks) n s ok e few =
      let (taken, left, j, split, fst_eq, snd_eq, fewer, ends) = drain-cases 31 chunks n in
      let rest =
        frames_complete fuel now left j (behind now (queued left j) s) ok refl (omega arith) in
      ap (λ r. join (send_frame decode (frames decode fuel now) r))
        (read_output-queue now (queued (c ∷ chunks) n) s ok e)
      ∙ ap
          (λ d.
            join (decode c ∷ d)
            ++ join (frames decode fuel now (behind now (drain decode 31 (queued chunks n)).1 s)))
          fst_eq
      ∙ ap
          (λ q.
            join (decode c ∷ map decode taken) ++ join (frames decode fuel now (behind now q s)))
          snd_eq
      ∙ ap (λ t. join (decode c ∷ map decode taken) ++ t) rest
      ∙ sym (join-append (decode c ∷ map decode taken) (map decode left))
      ∙ ap (λ cs. join (decode c ∷ cs))
          (sym (map-append decode taken left) ∙ ap (map decode) (sym split))
