-- ===== src/Terminal/Kept.antt =====
-- What a new session leaves of the others.
use devops_agent.Prelude.{
  ℕ, ◌+◌, ◌≤◌, ◌≡◌, refl, sym, ap, ◌∙◌, true, false, ◌&&◌, not, some, List, [], ◌∷◌, length, any,
  leb, if_true, if_false, arith, Bool-cases, inl, inr,
}
use devops_agent.Text.{Text, text_eq, text_eq→eq}
use devops_agent.Dict.{Dict, lookup, lookup-insert_other}
use devops_agent.Terminal.Session.{TerminalSession, is_connecting, new_session, close_terminal}
use devops_agent.Terminal.Manager.{
  TerminalManager, is_reapable, is_held, change_in, close_session, close_each, is_expired,
  cleanup_expired, hold, add_session, create_session,
}
use devops_agent.Terminal.Capacity.{is_held-keep_if, cleanup_expired-active}

pub lookup-change_in_self :
    (k : Text) (f : TerminalSession → TerminalSession) (s : TerminalSession)
    (d : Dict TerminalSession)
    → lookup k d ≡ some s
    → lookup k (change_in k f d) ≡ some (f s)
unfolding lookup change_in
lookup-change_in_self k f s [] h = cc
lookup-change_in_self k f s ((i, w) ∷ d) h = elim (Bool-cases (text_eq i k)) [
  | inl same ↦
      let is_s : some w ≡ some s = sym (if_true _ _ same) ∙ h in
      let this : w ≡ s = cc in rw (same, same, this) refl
  | inr other ↦ rw (other, other) (lookup-change_in_self k f s d (sym (if_false _ _ other) ∙ h))
]

lookup-change_in_other :
    (k j : Text) (f : TerminalSession → TerminalSession) (d : Dict TerminalSession)
    → text_eq k j ≡ false
    → lookup j (change_in k f d) ≡ lookup j d
unfolding lookup change_in
lookup-change_in_other k j f [] ne = refl
lookup-change_in_other k j f ((i, w) ∷ d) ne = elim (Bool-cases (text_eq i k)) [
  | inl same ↦
      let is_k : i ≡ k = text_eq→eq i k same in
      let apart : text_eq i j ≡ false = rw is_k ne in rw (same, apart) refl
  | inr other ↦ rw other (ground (arith, lookup-change_in_other k j f d ne))
]

close_session-lookup_other :
    (k j : Text) (m : TerminalManager)
    → text_eq k j ≡ false
    → lookup j (close_session k m).1.objects ≡ lookup j m.objects
unfolding close_session
close_session-lookup_other k j m ne = elim (Bool-cases (is_held k m.active)) [
  | inl there ↦ rw there (lookup-change_in_other k j close_terminal m.objects ne)
  | inr absent ↦ rw absent refl
]

close_each-lookup_other :
    (is : List Text) (j : Text) (m : TerminalManager)
    → is_held j is ≡ false
    → lookup j (close_each is m).objects ≡ lookup j m.objects
unfolding close_each any
close_each-lookup_other [] j m ne = refl
close_each-lookup_other (k ∷ is) j m ne =
    let apart : text_eq k j ≡ false = ground arith in
    let rest : is_held j is ≡ false = ground arith in
    close_each-lookup_other is j (close_session k m).1 rest ∙ close_session-lookup_other k j m apart

is_held-hold :
    (k j : Text) (is : List Text) → text_eq k j ≡ false → is_held j (hold k is) ≡ is_held j is
unfolding hold any
is_held-hold k j [] ne = ground (arith, ne)
is_held-hold k j (i ∷ is) ne = ground (arith, is_held-hold k j is ne)

cleanup_expired-is_held :
    (now : ℕ) (j : Text) (m : TerminalManager)
    → is_held j (cleanup_expired now m).active
      ≡ (is_held j m.active && not (is_expired now m.objects j))
cleanup_expired-is_held now j m =
    ap (is_held j) (cleanup_expired-active now m)
    ∙ is_held-keep_if (λ i. not (is_expired now m.objects i)) j m.active

cleanup_expired-lookup :
    (now : ℕ) (j : Text) (m : TerminalManager)
    → is_expired now m.objects j ≡ false
    → lookup j (cleanup_expired now m).objects ≡ lookup j m.objects
unfolding cleanup_expired
cleanup_expired-lookup now j m stays =
    close_each-lookup_other _ j m
      (is_held-keep_if (is_expired now m.objects) j m.active ∙ ground (arith, stays))

-- A request for a new session, granted or not, drops of the other sessions exactly those that are
-- expired; the new identifier is another one.
pub create_session-is_held :
    (now : ℕ) (session_id : Text) (rows cols : ℕ) (m : TerminalManager) (j : Text)
    → text_eq session_id j ≡ false
    → is_held j (create_session now session_id rows cols m).1.active
      ≡ (is_held j m.active && not (is_expired now m.objects j))
unfolding create_session add_session
create_session-is_held now session_id rows cols m j ne =
    let held = is_held-hold session_id j (cleanup_expired now m).active ne in
    let kept = cleanup_expired-is_held now j m in
    elim (Bool-cases (leb 5 (length (cleanup_expired now m).active))) [
      | inl full ↦ rw full kept
      | inr free ↦ rw free (held ∙ kept)
    ]

create_session-lookup_other :
    (now : ℕ) (session_id : Text) (rows cols : ℕ) (m : TerminalManager) (j : Text)
    → text_eq session_id j ≡ false
    → is_expired now m.objects j ≡ false
    → lookup j (create_session now session_id rows cols m).1.objects ≡ lookup j m.objects
unfolding create_session add_session
create_session-lookup_other now session_id rows cols m j ne stays =
    let found =
      lookup-insert_other session_id j (new_session now session_id rows cols)
        (cleanup_expired now m).objects ne in
    let kept = cleanup_expired-lookup now j m stays in
    elim (Bool-cases (leb 5 (length (cleanup_expired now m).active))) [
      | inl full ↦ rw full kept
      | inr free ↦ rw free (found ∙ kept)
    ]

is_expired-connecting :
    (now : ℕ) (objects : Dict TerminalSession) (j : Text) (s : TerminalSession)
    → lookup j objects ≡ some s
    → is_connecting s.state ≡ true
    → now ≤ s.created_at + 90
    → is_expired now objects j ≡ false
unfolding is_expired is_reapable
is_expired-connecting now objects j s e h young = rw (e, h) (ground arith)

-- A session that is still connecting is held behind a request for another one, and in the same state,
-- if it is at most 90 seconds old; the new identifier is another one.
pub create_session-keeps_connecting :
    (now : ℕ) (session_id : Text) (rows cols : ℕ) (m : TerminalManager) (j : Text)
    (s : TerminalSession)
    → text_eq session_id j ≡ false
    → is_held j m.active ≡ true
    → lookup j m.objects ≡ some s
    → is_connecting s.state ≡ true
    → now ≤ s.created_at + 90
    → (is_held j (create_session now session_id rows cols m).1.active ≡ true)
      × (lookup j (create_session now session_id rows cols m).1.objects ≡ some s)
create_session-keeps_connecting now session_id rows cols m j s ne held e h young =
    let stays = is_expired-connecting now m.objects j s e h young in
    (
      create_session-is_held now session_id rows cols m j ne ∙ rw (held, stays) refl,
      create_session-lookup_other now session_id rows cols m j ne stays ∙ e,
    )
