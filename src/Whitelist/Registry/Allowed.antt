-- ===== src/Whitelist/Registry/Allowed.antt =====
-- What the whitelist allows after any registrations.
use devops_agent.Prelude.{
  ℕ, ◌≤◌, ◌≡◌, refl, ap, sym, ◌∙◌, true, false, List, [], ◌∷◌, ◌++◌, ◌==◌, arith, any, All,
  All-append, ltb, or-eq-true, or-true_right, inl, inr, ◌⊎◌, Bool-cases, ==_iff, subst,
  append_assoc, append-nil,
}
use devops_agent.Text.{Unicode, Text, ascii_word, strip, tokens}
use devops_agent.Regex.{full_match, at_dollar}
use devops_agent.Regex.Language.{match_sound, Covers, Runs-Consumes}
use devops_agent.Regex.Repeat.{IsLineEnd, at_dollar-IsLineEnd}
use devops_agent.Whitelist.{
  Item, lit, name_slot, path_slot, query_slot, idle, is_slot_char, is_query_char, item_regex,
  items_regex, compile_from, pattern_to_regex, compiled_patterns, matches, any_match,
  is_command_allowed,
}
use devops_agent.Whitelist.Registry.{
  is_forbidden, mask_from, is_acceptable, first_is_readonly, items_eq, add_pattern,
  register_readonly_pattern, register_all,
}
use devops_agent.Whitelist.Registry.Scan.{IsClean, mask_from-IsClean, Literal, compile_from-Literal}
use devops_agent.Whitelist.Registry.Prefix.{is_readonly_start, Runs-readonly}

-- Its first word is a read-only binary, and up to a final newline it holds no code point by which a
-- shell would chain, redirect, expand or escape.
abbrev pub IsReadonly : Text → Type 0
IsReadonly s =
    (is_readonly_start s ≡ true)
    × ((w : Text) × (t : Text) × (s ≡ w ++ t) × All IsClean w × IsLineEnd t)

ascii_word-IsClean : (c : ℕ) → ascii_word c ≡ true → IsClean c
unfolding ascii_word is_forbidden
ascii_word-IsClean c h = ground arith

big-IsClean : (c : ℕ) → 128 ≤ c → IsClean c
unfolding is_forbidden
big-IsClean c h = ground arith

acceptable_parts :
    (s : Text)
    → is_acceptable s ≡ true
    → (first_is_readonly (tokens s) ≡ true) × (any is_forbidden (mask_from idle s) ≡ false)
unfolding is_acceptable
acceptable_parts s h = ground arith

module _ (u : Unicode) where
  word-IsClean : (c : ℕ) → u.is_word c ≡ true → IsClean c
  word-IsClean c h = elim (Bool-cases (ltb c 128)) [
    | inl small ↦ ascii_word-IsClean c (sym (u.is_word-ascii c (ground arith)) ∙ h)
    | inr large ↦ big-IsClean c (ground arith)
  ]

  slot_char-IsClean : (c : ℕ) → is_slot_char u c ≡ true → IsClean c
  unfolding is_slot_char is_forbidden
  slot_char-IsClean c h = ground (arith, word-IsClean c)

  query_char-IsClean : (c : ℕ) → is_query_char u c ≡ true → IsClean c
  unfolding is_query_char is_forbidden
  query_char-IsClean c h = ground (arith, slot_char-IsClean c)

  same-IsClean : (c : ℕ) → IsClean c → (x : ℕ) → (c == x) ≡ true → IsClean x
  same-IsClean c clean x e = subst IsClean ((==_iff c x).0 e) clean

  item_regex-Covers : (i : Item) → Literal IsClean i → Covers IsClean (item_regex u i)
  unfolding item_regex is_forbidden
  item_regex-Covers (lit c) h = same-IsClean c h
  item_regex-Covers name_slot h = (slot_char-IsClean, slot_char-IsClean)
  item_regex-Covers path_slot h =
      (same-IsClean b'/' refl, (tt, (slot_char-IsClean, slot_char-IsClean)))
  item_regex-Covers query_slot h = (
    (query_char-IsClean, query_char-IsClean),
    (same-IsClean b' ' refl, (query_char-IsClean, query_char-IsClean)),
  )

  items_regex-Covers :
      (is : List Item) → All (Literal IsClean) is → Covers IsClean (items_regex u is)
  unfolding items_regex
  items_regex-Covers [] h = tt
  items_regex-Covers (i ∷ is) h = (item_regex-Covers i h.0, items_regex-Covers is h.1)

  -- every match of the pattern is a read-only command
  IsReadonlyPattern : List Item → Type 0
  IsReadonlyPattern items = (s : Text) → matches u s items ≡ true → IsReadonly s

  is_acceptable-IsReadonlyPattern :
      (pattern : Text)
      → is_acceptable (strip pattern) ≡ true
      → IsReadonlyPattern (pattern_to_regex (strip pattern))
  unfolding IsReadonlyPattern matches pattern_to_regex full_match
  is_acceptable-IsReadonlyPattern pattern h s m =
      let (starts, unmasked) = acceptable_parts (strip pattern) h in
      let items = compile_from idle (strip pattern) in
      let literal =
        compile_from-Literal IsClean idle (strip pattern) tt
          (mask_from-IsClean idle (strip pattern) unmasked) in
      let (t, reading, end) = match_sound (items_regex u items) at_dollar s m in
      let (w, e, clean) =
        Runs-Consumes IsClean (items_regex u items) s t (items_regex-Covers items literal)
          reading in
      (
        Runs-readonly u pattern s t starts (at_dollar-IsLineEnd t end) reading,
        (w, t, e, clean, at_dollar-IsLineEnd t end),
      )

  -- `patterns` is a list of built-in ones with read-only patterns behind them
  Extends : List (List Item) → List (List Item) → Type 0
  Extends base patterns =
      (extra : List (List Item)) × (patterns ≡ base ++ extra) × All IsReadonlyPattern extra

  add_pattern-Extends :
      (base patterns : List (List Item)) (items : List Item)
      → IsReadonlyPattern items
      → Extends base patterns
      → Extends base (add_pattern items patterns)
  unfolding Extends add_pattern
  add_pattern-Extends base patterns items good (extra, e, safe) =
      elim (Bool-cases (any (λ x. items_eq x items) patterns)) [
        | inl known ↦ rw known (extra, e, safe)
        | inr fresh ↦ rw fresh (
          extra ++ items ∷ [],
          ap (λ x. x ++ items ∷ []) e ∙ append_assoc base extra (items ∷ []),
          All-append IsReadonlyPattern extra (items ∷ []) safe (good, tt),
        )
      ]

  register-Extends :
      (base patterns : List (List Item)) (p : Text)
      → Extends base patterns
      → Extends base (register_readonly_pattern p patterns).1
  unfolding register_readonly_pattern
  register-Extends base patterns p x = elim (Bool-cases (is_acceptable (strip p))) [
    | inl fine ↦ rw fine (
        add_pattern-Extends base patterns (pattern_to_regex (strip p))
          (is_acceptable-IsReadonlyPattern p fine) x)
    | inr refused ↦ rw refused x
  ]

  register_all-Extends :
      (base patterns : List (List Item)) (ps : List Text)
      → Extends base patterns
      → Extends base (register_all ps patterns)
  unfolding register_all
  register_all-Extends base patterns [] x = x
  register_all-Extends base patterns (p ∷ ps) x =
      register_all-Extends base (register_readonly_pattern p patterns).1 ps
        (register-Extends base patterns p x)

  any_match-append :
      (base extra : List (List Item)) (s : Text)
      → All IsReadonlyPattern extra
      → any_match u s (base ++ extra) ≡ true
      → (any_match u s base ≡ true) ⊎ IsReadonly s
  unfolding any_match any IsReadonlyPattern
  any_match-append base extra [] safe h = cc
  any_match-append [] [] (c ∷ s) safe h = cc
  any_match-append [] (x ∷ extra) (c ∷ s) safe h = elim (or-eq-true _ _ h) [
    | inl m ↦ inr (safe.0 (c ∷ s) m)
    | inr later ↦ any_match-append [] extra (c ∷ s) safe.1 later
  ]
  any_match-append (b ∷ base) extra (c ∷ s) safe h = elim (or-eq-true (matches u (c ∷ s) b) _ h) [
    | inl m ↦ inl (rw m)
    | inr later ↦ elim (any_match-append base extra (c ∷ s) safe later) [
      | inl old ↦ inl (or-true_right (matches u (c ∷ s) b) _ old)
      | inr good ↦ inr good
    ]
  ]

  -- After any sequence of registrations, accepted or refused, a command that the whitelist allows
  -- is one that the built-in patterns allow, or its first word is a read-only binary and it
  -- holds no code point that the registration forbids, but for one newline at its end.
  pub register_all-allowed :
      (ps : List Text) (command : Text)
      → is_command_allowed u (register_all ps compiled_patterns) command ≡ true
      → (is_command_allowed u compiled_patterns command ≡ true) ⊎ IsReadonly command
  unfolding is_command_allowed Extends
  register_all-allowed ps command h =
      let (extra, e, safe) =
        register_all-Extends compiled_patterns compiled_patterns ps
          ([], sym (append-nil compiled_patterns), tt) in
      any_match-append compiled_patterns extra command safe (rw e at h)
