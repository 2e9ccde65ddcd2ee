-- ===== src/Whitelist/Registry/Scan.antt =====
-- The masked check of `register_readonly_pattern` against the pattern that is compiled: where the
-- masked text has no forbidden code point, the compiled pattern has none but braces.
use devops_agent.Prelude.{
  ℕ, ◌≡◌, refl, Bool, true, false, ◌&&◌, not, List, [], ◌∷◌, ◌++◌, arith, ◌==◌, any, All,
  All-append, Bool-cases, or-eq-true, ==_iff, subst, map, inl, inr,
}
use devops_agent.Text.{Text, is_digit}
use devops_agent.Whitelist.{
  Item, lit, Pending, idle, brace, is_slot_letter, slot_of, give_up, scan_outside, scan_step,
  compile_from,
}
use devops_agent.Whitelist.Registry.{
  is_forbidden, is_mask_char, mask_outside, mask_step, mask_give_up, mask_from,
}

-- forbidden in a pattern, braces apart
abbrev pub is_chaining : ℕ → Bool
is_chaining c = is_forbidden c && not (c == b'{') && not (c == b'}')

abbrev pub IsClean : ℕ → Type 0
IsClean c = is_chaining c ≡ false

any-append_false {ℓ} :
    {A : Type ℓ} (p : A → Bool) (xs ys : List A)
    → any p (xs ++ ys) ≡ false
    → (any p xs ≡ false) × (any p ys ≡ false)
unfolding any
any-append_false p [] ys h = (refl, h)
any-append_false p (x ∷ xs) ys h = elim (Bool-cases (p x)) [
  | inl yes_x ↦ cc (rw yes_x at h)
  | inr no_x ↦ rw no_x (any-append_false p xs ys (rw no_x at h))
]

slot_letter-not_forbidden : (c : ℕ) → is_slot_letter c ≡ true → is_forbidden c ≡ false
unfolding is_slot_letter is_forbidden
slot_letter-not_forbidden c h = ground arith

digit-not_forbidden : (c : ℕ) → is_digit c ≡ true → is_forbidden c ≡ false
unfolding is_digit is_forbidden
digit-not_forbidden c h = ground arith

mask_char-not_forbidden : (c : ℕ) → is_mask_char c ≡ true → is_forbidden c ≡ false
unfolding is_mask_char
mask_char-not_forbidden c h = elim (or-eq-true _ _ h) [
  | inl letter ↦ slot_letter-not_forbidden c letter
  | inr digit ↦ digit-not_forbidden c digit
]

not_forbidden-IsClean : (c : ℕ) → is_forbidden c ≡ false → IsClean c
not_forbidden-IsClean c h = rw h

mask_outside-IsClean : (c : ℕ) → any is_forbidden (mask_outside c).0 ≡ false → IsClean c
unfolding mask_outside any
mask_outside-IsClean c h = ground arith

mask_step-IsClean : (p : Pending) (c : ℕ) → any is_forbidden (mask_step p c).0 ≡ false → IsClean c
unfolding mask_step any
mask_step-IsClean idle c h = mask_outside-IsClean c h
mask_step-IsClean (brace []) c h =
    ground (arith, slot_letter-not_forbidden c, mask_outside-IsClean c)
mask_step-IsClean (brace (n ∷ name)) c h = elim (Bool-cases (is_mask_char c)) [
  | inl letter ↦ not_forbidden-IsClean c (mask_char-not_forbidden c letter)
  | inr other ↦ elim (Bool-cases (c == b'}')) [
    | inl close ↦ ground arith
    | inr more ↦
        mask_outside-IsClean c
          (any-append_false is_forbidden (mask_give_up (brace (n ∷ name))) _
            (rw (other, more) at h)).1
  ]
]

-- A text whose mask has no forbidden code point has none but braces.
pub mask_from-IsClean :
    (p : Pending) (s : Text) → any is_forbidden (mask_from p s) ≡ false → All IsClean s
unfolding mask_from
mask_from-IsClean p [] h = tt
mask_from-IsClean p (c ∷ s) h =
    let (now, later) = any-append_false is_forbidden (mask_step p c).0 _ h in
    (mask_step-IsClean p c now, mask_from-IsClean (mask_step p c).1 s later)

module _ (P : ℕ → Type 0) where
  -- the literal parts of a pattern satisfy P
  abbrev pub Literal : Item → Type 0
  Literal (lit c) = P c
  Literal _ = Unit

  abbrev Held : Pending → Type 0
  Held idle = Unit
  Held (brace name) = P b'{' × All P name

  All-map_lit : (s : Text) → All P s → All Literal (map lit s)
  All-map_lit [] h = tt
  All-map_lit (c ∷ s) h = (h.0, All-map_lit s h.1)

  give_up-Literal : (p : Pending) → Held p → All Literal (give_up p)
  unfolding give_up
  give_up-Literal idle h = tt
  give_up-Literal (brace name) h = (h.0, All-map_lit name h.1)

  slot_of-Literal : (name : Text) → Literal (slot_of name)
  unfolding slot_of
  slot_of-Literal name = ground arith

  scan_outside-Literal : (c : ℕ) → P c → All Literal (scan_outside c).0 × Held (scan_outside c).1
  unfolding scan_outside
  scan_outside-Literal c h = elim (Bool-cases (c == b'{')) [
    | inl open_brace ↦ rw open_brace (tt, (subst P ((==_iff c b'{').0 open_brace) h, tt))
    | inr other ↦ rw other ((h, tt), tt)
  ]

  scan_step-Literal :
      (p : Pending) (c : ℕ) → P c → Held p → All Literal (scan_step p c).0 × Held (scan_step p c).1
  unfolding scan_step
  scan_step-Literal idle c h held = scan_outside-Literal c h
  scan_step-Literal (brace []) c h held = elim (Bool-cases (is_slot_letter c)) [
    | inl letter ↦ rw letter (tt, (held.0, (h, tt)))
    | inr other ↦ let (out, next) = scan_outside-Literal c h in rw other ((held.0, out), next)
  ]
  scan_step-Literal (brace (n ∷ name)) c h held = elim (Bool-cases (is_slot_letter c)) [
    | inl letter ↦ rw letter (tt, (held.0, (held.1.0, All-append P name (c ∷ []) held.1.1 (h, tt))))
    | inr other ↦ elim (Bool-cases (c == b'}')) [
      | inl close ↦ rw (other, close) ((slot_of-Literal (n ∷ name), tt), tt)
      | inr more ↦
          let (out, next) = scan_outside-Literal c h in
          rw (other, more)
            (All-append Literal _ _ (give_up-Literal (brace (n ∷ name)) held) out, next)
    ]
  ]

  -- Every literal of a compiled pattern is a code point of its text.
  pub compile_from-Literal :
      (p : Pending) (s : Text) → Held p → All P s → All Literal (compile_from p s)
  unfolding compile_from
  compile_from-Literal p [] held h = give_up-Literal p held
  compile_from-Literal p (c ∷ s) held h =
      let (out, next) = scan_step-Literal p c h.0 held in
      All-append Literal _ _ out (compile_from-Literal (scan_step p c).1 s next h.1)
