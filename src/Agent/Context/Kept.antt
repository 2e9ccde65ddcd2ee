-- ===== src/Agent/Context/Kept.antt =====
-- The bounds on what the model is shown, and what is always shown.
use devops_agent.Prelude.{
  ℕ, zero, suc, ◌-◌, ◌≤◌, ◌<◌, ◌≡◌, ◌⊎◌, refl, ap, ◌∙◌, true, false, Option, none, some, List, [],
  ◌∷◌, ◌++◌, map, length, length-append, ltb, arith, Bool-cases, inl, inr, if_true, if_false,
}
use devops_agent.Text.{text_eq, text_eq→eq, codes}
use devops_agent.Agent.Context.{
  HistoryItem, is_system, truncated, drop, last_items, first_system, window, pop_oldest, total,
  is_too_long, shrink, bound_history,
}

-- the newest message
unfoldable pub newest : List HistoryItem → Option HistoryItem
newest [] = none
newest (m ∷ []) = some m
newest (m ∷ n ∷ l) = newest (n ∷ l)

length-drop : (n : ℕ) (l : List HistoryItem) → length (drop n l) ≡ length l - n
unfolding drop
length-drop zero l = omega arith
length-drop (suc n) [] = omega arith
length-drop (suc n) (m ∷ l) = omega (arith, length-drop n l)

newest-drop : (n : ℕ) (l : List HistoryItem) → n < length l → newest (drop n l) ≡ newest l
unfolding drop newest
newest-drop zero l h = refl
newest-drop (suc n) [] h = absurd (omega arith)
newest-drop (suc n) (m ∷ []) h = absurd (omega arith)
newest-drop (suc n) (m ∷ k ∷ l) h = newest-drop n (k ∷ l) (omega arith)

newest-last_items :
    (n : ℕ) (l : List HistoryItem) → 1 ≤ n → n ≤ length l → newest (last_items n l) ≡ newest l
unfolding last_items
newest-last_items n l some_left h = newest-drop (length l - n) l (omega arith)

newest-append : (l k : List HistoryItem) → 1 ≤ length k → newest (l ++ k) ≡ newest k
unfolding newest
newest-append [] k h = refl
newest-append (m ∷ []) [] h = absurd (omega arith)
newest-append (m ∷ []) (n ∷ k) h = refl
newest-append (m ∷ x ∷ l) k h = newest-append (x ∷ l) k h

length-pop_oldest : (l : List HistoryItem) → 2 < length l → suc (length (pop_oldest l)) ≡ length l
unfolding pop_oldest
length-pop_oldest [] h = absurd (omega arith)
length-pop_oldest (m ∷ []) h = absurd (omega arith)
length-pop_oldest (m ∷ n ∷ l) h = ground arith

newest-pop_oldest : (l : List HistoryItem) → 2 < length l → newest (pop_oldest l) ≡ newest l
unfolding pop_oldest newest
newest-pop_oldest [] h = absurd (omega arith)
newest-pop_oldest (m ∷ []) h = absurd (omega arith)
newest-pop_oldest (m ∷ n ∷ []) h = absurd (omega arith)
newest-pop_oldest (m ∷ n ∷ k ∷ l) h = elim (Bool-cases (is_system m)) [
  | inl system ↦ rw system refl
  | inr other ↦ rw other refl
]

length-first_system : (l : List HistoryItem) → length (first_system l) ≤ 1
unfolding first_system
length-first_system [] = omega arith
length-first_system (m ∷ l) = ground arith

length-last_items : (n : ℕ) (l : List HistoryItem) → n ≤ length l → length (last_items n l) ≡ n
unfolding last_items
length-last_items n l h = omega (arith, length-drop (length l - n) l)

window-bounds : (l : List HistoryItem) → (length (window l) ≤ 24) × (newest (window l) ≡ newest l)
unfolding window
window-bounds l = elim (Bool-cases (ltb 24 (length l))) [
  | inl many ↦
      let n = 24 - length (first_system l) in
      let one = length-first_system l in
      let enough : n ≤ length l = ground arith in
      let size_last = length-last_items n l enough in
      let both = length-append (first_system l) (last_items n l) in
      rw many (
        omega arith,
        newest-append (first_system l) (last_items n l) (omega arith)
            ∙ newest-last_items n l (omega arith) enough,
      )
  | inr few ↦ rw few (ground arith, refl)
]

truncated-system : (m : HistoryItem) → is_system m ≡ true → truncated m ≡ m
unfolding truncated is_system text_eq
truncated-system m h =
    let role_is : m.role ≡ codes "system" = text_eq→eq m.role (codes "system") h in
    let no_tool : text_eq m.role (codes "tool") ≡ false =
      ap (λ r. text_eq r (codes "tool")) role_is in
    rw no_tool refl

first_system-system :
    (m : HistoryItem) (l : List HistoryItem) → is_system m ≡ true → first_system (m ∷ l) ≡ m ∷ []
unfolding first_system
first_system-system m l h = rw h refl

window-system :
    (m : HistoryItem) (l : List HistoryItem)
    → is_system m ≡ true
    → (rest : List HistoryItem) × (window (m ∷ l) ≡ m ∷ rest)
unfolding window
window-system m l h =
    let first = first_system-system m l h in
    elim (Bool-cases (ltb 24 (length (m ∷ l)))) [
      | inl many ↦ (
        last_items 23 (m ∷ l),
        if_true {b = ltb 24 (length (m ∷ l))} _ _ many
            ∙ ap (λ (f : List HistoryItem). f ++ last_items (24 - length f) (m ∷ l)) first,
      )
      | inr few ↦ (l, if_false {b = ltb 24 (length (m ∷ l))} _ _ few)
    ]

module _ (size : HistoryItem → ℕ) where
  -- short enough, or as short as the loop makes it
  abbrev pub Fits : List HistoryItem → Type 0
  Fits l = (total size l ≤ 48000) ⊎ (length l ≤ 2)

  is_too_long-Fits : (l : List HistoryItem) → is_too_long size l ≡ false → Fits l
  unfolding is_too_long
  is_too_long-Fits l h = ground arith

  shrink-Fits :
      (fuel : ℕ) (l : List HistoryItem)
      → length l ≤ fuel
      → Fits (shrink size fuel l)
        × (length (shrink size fuel l) ≤ length l)
        × (newest (shrink size fuel l) ≡ newest l)
  unfolding shrink is_too_long
  shrink-Fits zero l h = (inr (omega arith), omega arith, refl)
  shrink-Fits (suc fuel) l h = elim (Bool-cases (is_too_long size l)) [
    | inl long ↦
        let many : 2 < length l = ground arith in
        let shorter = length-pop_oldest l many in
        let (fits, fewer, kept) = shrink-Fits fuel (pop_oldest l) (omega arith) in
        rw long (fits, omega arith, kept ∙ newest-pop_oldest l many)
    | inr short ↦ rw short (is_too_long-Fits l short, omega arith, refl)
  ]

  -- Any history is cut to at most 24 messages, of at most 48000 characters unless two are left, and the
  -- newest one is still the last.
  bound_history-Fits :
      (history : List HistoryItem)
      → (length (bound_history size history) ≤ 24)
        × Fits (bound_history size history)
        × (newest (bound_history size history) ≡ newest (map truncated history))
  unfolding bound_history
  bound_history-Fits history =
      let bounded = window (map truncated history) in
      let (few, kept) = window-bounds (map truncated history) in
      let (fits, fewer, same) = shrink-Fits (length bounded) bounded (omega arith) in
      (omega arith, fits, same ∙ kept)

  shrink-system :
      (fuel : ℕ) (m : HistoryItem) (l : List HistoryItem)
      → is_system m ≡ true
      → (rest : List HistoryItem) × (shrink size fuel (m ∷ l) ≡ m ∷ rest)
  unfolding shrink is_too_long pop_oldest
  shrink-system zero m l h = (l, refl)
  shrink-system (suc fuel) m [] h = ([], ground arith)
  shrink-system (suc fuel) m (n ∷ l) h =
      let (rest, same) = shrink-system fuel m l h in
      elim (Bool-cases (is_too_long size (m ∷ n ∷ l))) [
        | inl long ↦ (rest, rw (long, h) same)
        | inr short ↦ (n ∷ l, rw short refl)
      ]

  -- A history that begins with the system's message is cut to at most 24 messages, of at most 48000
  -- characters unless two are left; the system's message is still the first, as it was, and the
  -- newest one is still the last, cut if it is a tool's.
  pub bound_history_kept :
      (m : HistoryItem) (history : List HistoryItem)
      → is_system m ≡ true
      → (length (bound_history size (m ∷ history)) ≤ 24)
        × Fits (bound_history size (m ∷ history))
        × (newest (bound_history size (m ∷ history)) ≡ newest (map truncated (m ∷ history)))
        × (rest : List HistoryItem) × (bound_history size (m ∷ history) ≡ m ∷ rest)
  unfolding bound_history
  bound_history_kept m history h =
      let (few, fits, last) = bound_history-Fits (m ∷ history) in
      let (behind, front) = window-system m (map truncated history) h in
      let first = ap (λ t. window (t ∷ map truncated history)) (truncated-system m h) ∙ front in
      let (rest, same) = shrink-system (length (window (map truncated (m ∷ history)))) m behind h in
      (
        few,
        fits,
        last,
        rest,
        ap (shrink size (length (window (map truncated (m ∷ history))))) first ∙ same,
      )
