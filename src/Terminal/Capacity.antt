-- ===== src/Terminal/Capacity.antt =====
-- How many terminal sessions there are, and which ones a new one displaces.
use devops_agent.Prelude.{
  ℕ, suc, ◌≤◌, ◌<◌, ◌≡◌, ◌↔◌, refl, sym, ap, ◌∙◌, Bool, true, false, ◌&&◌, not, List, [], ◌∷◌,
  length, any, keep_if, length-keep_if, arith, Bool-cases, inl, inr,
}
use devops_agent.Text.{Text, text_eq, text_eq→eq, text_eq_refl}
use devops_agent.Terminal.Session.{close_terminal}
use devops_agent.Terminal.Manager.{
  TerminalManager, no_sessions, is_held, forget, change_session, close_session, close_each,
  close_all, is_expired, cleanup_expired, hold, add_session, create_session, connect_session_failed,
  socket_gone, TerminalEvent, create, on_session, failed_connect, disconnect, close_request,
  shutdown, handle, handle_all,
}

-- the sessions that may stay
abbrev pub staying : ℕ → TerminalManager → List Text
staying now m = keep_if (λ i. not (is_expired now m.objects i)) m.active

keep_if-keep_if :
    (p q : Text → Bool) (xs : List Text) → keep_if p (keep_if q xs) ≡ keep_if (λ x. q x && p x) xs
unfolding keep_if
keep_if-keep_if p q [] = refl
keep_if-keep_if p q (x ∷ xs) = elim (Bool-cases (q x)) [
  | inl keep ↦ elim (Bool-cases (p x)) [
    | inl both ↦ rw (keep, both) (ap (λ r. x ∷ r) (keep_if-keep_if p q xs))
    | inr one ↦ rw (keep, one) (keep_if-keep_if p q xs)
  ]
  | inr drop ↦ rw drop (keep_if-keep_if p q xs)
]

keep_if-same :
    (p q : Text → Bool) (xs : List Text)
    → ((x : Text) → is_held x xs ≡ true → p x ≡ q x)
    → keep_if p xs ≡ keep_if q xs
unfolding keep_if any
keep_if-same p q [] h = refl
keep_if-same p q (x ∷ xs) h =
    let here : p x ≡ q x = h x (ground (arith, text_eq_refl x)) in
    let rest : keep_if p xs ≡ keep_if q xs = keep_if-same p q xs (λ y e. h y (ground (arith, e))) in
    rw (here, rest) refl

pub is_held-keep_if :
    (p : Text → Bool) (i : Text) (xs : List Text) → is_held i (keep_if p xs) ≡ (is_held i xs && p i)
unfolding keep_if any
is_held-keep_if p i [] = refl
is_held-keep_if p i (x ∷ xs) =
    let rest = is_held-keep_if p i xs in
    elim (Bool-cases (text_eq x i)) [
      | inl same ↦ let is_i : p x ≡ p i = ap p (text_eq→eq x i same) in ground arith
      | inr other ↦ ground arith
    ]

forget-absent : (i : Text) (xs : List Text) → is_held i xs ≡ false → forget i xs ≡ xs
unfolding forget keep_if any
forget-absent i [] h = refl
forget-absent i (x ∷ xs) h =
    let other : text_eq x i ≡ false = ground arith in
    let rest : is_held i xs ≡ false = ground arith in
    rw other (ap (λ r. x ∷ r) (forget-absent i xs rest))

pub close_session-active :
    (i : Text) (m : TerminalManager) → (close_session i m).1.active ≡ forget i m.active
unfolding close_session
close_session-active i m = elim (Bool-cases (is_held i m.active)) [
  | inl there ↦ rw there refl
  | inr absent ↦ rw absent (sym (forget-absent i m.active absent))
]

keep_if-always : (xs : List Text) → keep_if (λ x. true) xs ≡ xs
unfolding keep_if
keep_if-always [] = refl
keep_if-always (x ∷ xs) = ap (λ r. x ∷ r) (keep_if-always xs)

text_eq_sym : (a b : Text) → text_eq a b ≡ text_eq b a
text_eq_sym a b = elim (Bool-cases (text_eq a b)) [
  | inl same ↦ let is_b : a ≡ b = text_eq→eq a b same in rw is_b refl
  | inr other ↦ elim (Bool-cases (text_eq b a)) [
    | inl same ↦ let is_a : b ≡ a = text_eq→eq b a same in rw is_a refl
    | inr apart ↦ other ∙ sym apart
  ]
]

close_each-active :
    (is : List Text) (m : TerminalManager)
    → (close_each is m).active ≡ keep_if (λ i. not (is_held i is)) m.active
unfolding close_each forget any
close_each-active [] m = sym (keep_if-always m.active)
close_each-active (k ∷ is) m =
    close_each-active is (close_session k m).1
    ∙ ap (keep_if (λ i. not (is_held i is))) (close_session-active k m)
    ∙ keep_if-keep_if _ _ m.active
    ∙ keep_if-same _ _ m.active (λ i e. let turned = text_eq_sym i k in ground arith)

pub cleanup_expired-active :
    (now : ℕ) (m : TerminalManager) → (cleanup_expired now m).active ≡ staying now m
unfolding cleanup_expired
cleanup_expired-active now m =
    let p = is_expired now m.objects in
    close_each-active (keep_if p m.active) m
    ∙ keep_if-same _ _ m.active (λ i e. ap not (is_held-keep_if p i m.active ∙ rw e refl))

-- A new session is refused exactly when five sessions may stay: the limit counts no session that is
-- dead or past its lifetime.
pub create_session-free_place :
    (now : ℕ) (session_id : Text) (rows cols : ℕ) (m : TerminalManager)
    → ((create_session now session_id rows cols m).0 ≡ true) ↔ (length (staying now m) < 5)
unfolding create_session
create_session-free_place now session_id rows cols m =
    let cleaned = cleanup_expired-active now m in rw cleaned (ground arith)

length-hold : (i : Text) (is : List Text) → length (hold i is) ≤ suc (length is)
unfolding hold
length-hold i [] = omega arith
length-hold i (k ∷ is) = ground (arith, length-hold i is)

length-forget : (i : Text) (is : List Text) → length (forget i is) ≤ length is
unfolding forget
length-forget i is = length-keep_if _ is

-- at most five sessions are held
abbrev pub Bounded : TerminalManager → Type 0
Bounded m = length m.active ≤ 5

create_session-Bounded :
    (now : ℕ) (session_id : Text) (rows cols : ℕ) (m : TerminalManager)
    → Bounded m
    → Bounded (create_session now session_id rows cols m).1
unfolding create_session add_session
create_session-Bounded now session_id rows cols m h =
    let cleaned = cleanup_expired-active now m in
    let few : length (staying now m) ≤ length m.active = length-keep_if _ m.active in
    let held = length-hold session_id (cleanup_expired now m).active in
    let same : length (cleanup_expired now m).active ≡ length (staying now m) = ap length cleaned in
    ground arith

handle-Bounded : (e : TerminalEvent) (m : TerminalManager) → Bounded m → Bounded (handle e m)
unfolding handle change_session connect_session_failed socket_gone close_all
handle-Bounded (create now session_id rows cols) m h =
    create_session-Bounded now session_id rows cols m h
handle-Bounded (on_session session_id e) m h = h
handle-Bounded (failed_connect session_id) m h =
    let fewer = length-forget session_id m.active in omega arith
handle-Bounded (disconnect session_id) m h =
    let fewer = length-forget session_id m.active in
    rw (close_session-active session_id (change_session session_id close_terminal m)) (omega arith)
handle-Bounded (close_request session_id) m h =
    let fewer = length-forget session_id m.active in
    rw (close_session-active session_id m) (omega arith)
handle-Bounded shutdown m h = omega arith

-- At no time are more than five sessions held.
pub handle_all-Bounded : (es : List TerminalEvent) → length (handle_all es no_sessions).active ≤ 5
unfolding no_sessions handle_all
handle_all-Bounded es = go es no_sessions (omega arith)
  where
    go : (es : List TerminalEvent) (m : TerminalManager) → Bounded m → Bounded (handle_all es m)
    go [] m h = h
    go (e ∷ es) m h = go es (handle e m) (handle-Bounded e m h)
