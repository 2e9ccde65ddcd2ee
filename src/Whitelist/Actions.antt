-- ===== src/Whitelist/Actions.antt =====
-- The action whitelist in closed form: which texts `is_action_command_allowed` accepts.
use devops_agent.Prelude.{
  ◌≡◌, refl, ◌∙◌, ◌↔◌, true, inl, inr, List, [], ◌∷◌, ◌++◌, arith, any, any-get_elem?, map,
  or-eq-true, ==_refl, Bool, false, Bool-cases, if◌then◌else◌, ◌==◌, ap,
}
use devops_agent.Text.{Unicode, Text, codes}
use devops_agent.Regex.{full_match, at_dollar}
use devops_agent.Regex.Language.{Runs, match_sound, match_complete}
use devops_agent.Regex.Repeat.{
  IsLineEnd, at_dollar-IsLineEnd, IsLineEnd-at_dollar, IsRun, Runs-repeat1, repeat1-Runs,
}
use devops_agent.Whitelist.{
  Item, lit, name_slot, is_slot_char, item_regex, items_regex, slot_of, give_up, scan_outside,
  scan_step, compile_from, is_slot_letter, pattern_to_regex, compiled_action_patterns, matches,
  any_match, is_action_command_allowed,
}

-- a literal text with one name behind it
abbrev slotted : Text → List Item
slotted b = map lit b ++ name_slot ∷ []

-- The four mutations that the whitelist knows.
pub data Mutation : Type 0 where
  start stop restart restart_service : Mutation

abbrev pub prefix : Mutation → Text
prefix start = codes "docker start "
prefix stop = codes "docker stop "
prefix restart = codes "docker restart "
prefix restart_service = codes "systemctl restart "

abbrev all_slotted : List (List Item)
all_slotted =
    slotted (prefix start)
    ∷ slotted (prefix stop)
    ∷ slotted (prefix restart)
    ∷ slotted (prefix restart_service)
    ∷ []

compiled_action_patterns_lem : compiled_action_patterns ≡ all_slotted
unfolding compiled_action_patterns pattern_to_regex compile_from scan_step scan_outside slot_of
    give_up is_slot_letter
compiled_action_patterns_lem = refl

module _ (u : Unicode) where
  -- a mutation of one target, whose name has 1 to 128 word characters, dots and dashes
  abbrev pub IsMutation : Text → Type 0
  IsMutation s =
      (m : Mutation) × (name : Text) × (t : Text) × (s ≡ prefix m ++ (name ++ t))
      × IsRun (is_slot_char u) 128 name
      × IsLineEnd t

  Runs-slotted :
      (b s t : Text)
      → Runs (items_regex u (slotted b)) s t
      → (w : Text) × (s ≡ b ++ (w ++ t)) × IsRun (is_slot_char u) 128 w
  unfolding items_regex item_regex
  Runs-slotted [] s t (m, r, e) = rw (← e) (Runs-repeat1 (is_slot_char u) 127 s m r)
  Runs-slotted (c ∷ b) s t (m, (x, e, same), r) =
      let (w, f, run) = Runs-slotted b m t r in (w, e ∙ ground (arith, f), run)

  slotted-Runs :
      (b w t : Text)
      → IsRun (is_slot_char u) 128 w
      → Runs (items_regex u (slotted b)) (b ++ (w ++ t)) t
  unfolding items_regex item_regex
  slotted-Runs [] w t run = (t, repeat1-Runs (is_slot_char u) 127 w t run, refl)
  slotted-Runs (c ∷ b) w t run = (b ++ (w ++ t), (c, refl, ==_refl c), slotted-Runs b w t run)

  matches-slotted :
      (m : Mutation) (s : Text) → matches u s (slotted (prefix m)) ≡ true → IsMutation s
  unfolding matches full_match
  matches-slotted m s h =
      let (t, r, end) = match_sound (items_regex u (slotted (prefix m))) at_dollar s h in
      let (w, e, run) = Runs-slotted (prefix m) s t r in
      (m, w, t, e, run, at_dollar-IsLineEnd t end)

  slotted-matches :
      (m : Mutation) (name t : Text)
      → IsRun (is_slot_char u) 128 name
      → IsLineEnd t
      → matches u (prefix m ++ (name ++ t)) (slotted (prefix m)) ≡ true
  unfolding matches full_match
  slotted-matches m name t run end =
      match_complete (items_regex u (slotted (prefix m))) at_dollar (prefix m ++ (name ++ t)) t
        (slotted-Runs (prefix m) name t run) (IsLineEnd-at_dollar t end)

  allowed-IsMutation : (s : Text) → is_action_command_allowed u s ≡ true → IsMutation s
  unfolding is_action_command_allowed any_match any
  allowed-IsMutation [] h = cc
  allowed-IsMutation (c ∷ s) h = elim (or-eq-true _ _ (rw compiled_action_patterns_lem at h)) [
    | inl m ↦ matches-slotted start (c ∷ s) m
    | inr h1 ↦ elim (or-eq-true _ _ h1) [
      | inl m ↦ matches-slotted stop (c ∷ s) m
      | inr h2 ↦ elim (or-eq-true _ _ h2) [
        | inl m ↦ matches-slotted restart (c ∷ s) m
        | inr h3 ↦ elim (or-eq-true _ _ h3) [
          | inl m ↦ matches-slotted restart_service (c ∷ s) m
          | inr h4 ↦ cc
        ]
      ]
    ]
  ]

  -- The command of a mutation is allowed.
  pub IsMutation-allowed :
      (m : Mutation) (name t : Text)
      → IsRun (is_slot_char u) 128 name
      → IsLineEnd t
      → is_action_command_allowed u (prefix m ++ (name ++ t)) ≡ true
  unfolding is_action_command_allowed any_match any
  IsMutation-allowed start name t run end = rw compiled_action_patterns_lem (
      any-get_elem? (matches u (prefix start ++ (name ++ t))) all_slotted 0 (slotted (prefix start))
        refl (slotted-matches start name t run end))
  IsMutation-allowed stop name t run end = rw compiled_action_patterns_lem (
      any-get_elem? (matches u (prefix stop ++ (name ++ t))) all_slotted 1 (slotted (prefix stop))
        refl (slotted-matches stop name t run end))
  IsMutation-allowed restart name t run end = rw compiled_action_patterns_lem (
      any-get_elem? (matches u (prefix restart ++ (name ++ t))) all_slotted 2
        (slotted (prefix restart)) refl (slotted-matches restart name t run end))
  IsMutation-allowed restart_service name t run end = rw compiled_action_patterns_lem (
      any-get_elem? (matches u (prefix restart_service ++ (name ++ t))) all_slotted 3
        (slotted (prefix restart_service)) refl (slotted-matches restart_service name t run end))

  -- A text is an allowed action command exactly when it is `docker start`, `docker stop`,
  -- `docker restart` or `systemctl restart`, one space, and a name of 1 to 128 word characters,
  -- dots and dashes, with at most one newline behind it.
  pub is_action_command_allowed_iff :
      (s : Text) → (is_action_command_allowed u s ≡ true) ↔ IsMutation s
  is_action_command_allowed_iff s = (
    allowed-IsMutation s,
    λ (m, name, t, e, run, end). rw e (IsMutation-allowed m name t run end),
  )

-- whether two texts differ before the first of them ends
unfoldable pub differs : Text → Text → Bool
differs [] s = false
differs (c ∷ b) [] = true
differs (c ∷ b) (d ∷ s) = if c == d then differs b s else true

differs-append : (b s : Text) → differs b (b ++ s) ≡ false
unfolding differs
differs-append [] s = refl
differs-append (c ∷ b) s = rw (==_refl c) (differs-append b s)

-- A text that begins like none of the mutations is not allowed.
pub differs-refused :
    (u : Unicode) (s : Text)
    → ((m : Mutation) → differs (prefix m) s ≡ true)
    → is_action_command_allowed u s ≡ false
differs-refused u s other = elim (Bool-cases (is_action_command_allowed u s)) [
  | inr refused ↦ refused
  | inl listed ↦
      let (m, name, t, e, run, end) = allowed-IsMutation u s listed in
      let same : differs (prefix m) s ≡ false =
        ap (differs (prefix m)) e ∙ differs-append (prefix m) (name ++ t) in
      absurd (cc (other m, same))
]
