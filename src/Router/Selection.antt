-- ===== src/Router/Selection.antt =====
-- Which provider is chosen.
use devops_agent.Prelude.{
  ℕ, zero, suc, ◌+◌, ◌-◌, ◌%◌, ◌≤◌, ◌<◌, ◌≡◌, refl, sym, ap, ◌∙◌, Bool, true, false, ◌&&◌, not,
  some, List, [], ◌∷◌, length, get_elem?, ◌==◌, leb, if◌then◌else◌, if_true, if_false, arith,
  Bool-cases, Option-cases, inl, inr,
}
use native.Mathlib.Nat.{mod-eq_of_lt, mod-eq-sub-mod}
use devops_agent.Router.{
  ProviderState, is_usable, is_excluded, usable_at, places, find_in, find_next_provider,
}

-- whether the provider at an index may be called
abbrev pub may_call : ℕ → List ℕ → List ProviderState → ℕ → Bool
may_call now exclude states j = not (is_excluded j exclude) && usable_at now j states

pub find_in-step :
    (now : ℕ) (exclude : List ℕ) (states : List ProviderState) (j : ℕ) (js : List ℕ)
    → find_in now exclude states (j ∷ js)
      ≡ (if may_call now exclude states j then some j else find_in now exclude states js)
unfolding find_in
find_in-step now exclude states j js = ground arith

pub find_in-may_call :
    (now : ℕ) (exclude : List ℕ) (states : List ProviderState) (js : List ℕ) (k : ℕ)
    → find_in now exclude states js ≡ some k
    → may_call now exclude states k ≡ true
unfolding find_in
find_in-may_call now exclude states [] k h = cc
find_in-may_call now exclude states (j ∷ js) k h =
    elim (Bool-cases (may_call now exclude states j)) [
      | inl chosen ↦
          let this : some j ≡ some k =
            sym (find_in-step now exclude states j js ∙ if_true _ _ chosen) ∙ h in
          let is_k : j ≡ k = cc in rw (← is_k) chosen
      | inr skipped ↦
          find_in-may_call now exclude states js k
            (sym (find_in-step now exclude states j js ∙ if_false _ _ skipped) ∙ h)
    ]

pub find_in-places :
    (now : ℕ) (exclude : List ℕ) (states : List ProviderState) (primary n i left j : ℕ)
    → i ≤ j
    → j < i + left
    → may_call now exclude states ((primary + j) % n) ≡ true
    → (k : ℕ) × (find_in now exclude states (places primary n i left) ≡ some ((primary + k) % n))
      × (k ≤ j)
unfolding places
find_in-places now exclude states primary n i zero j low high h = absurd (omega arith)
find_in-places now exclude states primary n i (suc left) j low high h =
    let js = places primary n (i + 1) left in
    elim (Bool-cases (may_call now exclude states ((primary + i) % n))) [
      | inl chosen ↦
          (i, find_in-step now exclude states ((primary + i) % n) js ∙ if_true _ _ chosen, low)
      | inr skipped ↦ elim (Bool-cases (i == j)) [
        | inl this ↦ let is_j : i ≡ j = ground arith in cc
        | inr other ↦
            let (k, found, near) =
              find_in-places now exclude states primary n (i + 1) left j (ground arith)
                (omega arith) h in
            (
              k,
              find_in-step now exclude states ((primary + i) % n) js ∙ if_false _ _ skipped ∙ found,
              near,
            )
      ]
    ]

-- The provider that is chosen is usable and was not tried.
pub find_next_provider-may_call :
    (primary now : ℕ) (exclude : List ℕ) (k : ℕ) (states : List ProviderState)
    → find_next_provider primary now exclude states ≡ some k
    → (is_excluded k exclude ≡ false)
      × (s : ProviderState) × (get_elem? states k ≡ some s)
      × (is_usable now s ≡ true)
unfolding find_next_provider usable_at
find_next_provider-may_call primary now exclude k states h =
    let ok : may_call now exclude states k ≡ true =
      find_in-may_call now exclude states (places primary (length states) 0 (length states)) k h in
    elim (Option-cases (get_elem? states k)) [
      | inl outside ↦
          let no : usable_at now k states ≡ false = rw (usable_at, outside) refl in
          let refused : may_call now exclude states k ≡ false = ground arith in cc
      | inr (s, found) ↦
          let same : usable_at now k states ≡ is_usable now s = rw (usable_at, found) refl in
          (ground arith, s, found, ground arith)
    ]

-- If the provider j places behind the primary one, in the circle of all, may be called, then one is
-- chosen, and it is at most j places behind the primary one.
pub find_next_provider-first :
    (primary now : ℕ) (exclude : List ℕ) (j : ℕ) (s : ProviderState) (states : List ProviderState)
    → j < length states
    → get_elem? states ((primary + j) % length states) ≡ some s
    → is_usable now s ≡ true
    → is_excluded ((primary + j) % length states) exclude ≡ false
    → (k : ℕ) × (find_next_provider primary now exclude states
        ≡ some ((primary + k) % length states))
      × (k ≤ j)
unfolding find_next_provider usable_at
find_next_provider-first primary now exclude j s states small e usable new =
    let n = length states in
    let same : usable_at now ((primary + j) % n) states ≡ true = rw (usable_at, e) usable in
    find_in-places now exclude states primary n 0 n j (omega arith) (omega arith)
      (rw (new, same) refl)

-- every index is some places behind the primary one
pub place_of : (primary n j : ℕ) → primary < n → j < n → (d : ℕ) × (d < n) × ((primary + d) % n ≡ j)
place_of primary n j p h = elim (Bool-cases (leb primary j)) [
  | inl behind ↦
      let e : primary + (j - primary) ≡ j = ground arith in
      (j - primary, omega arith, ap (λ x. x % n) e ∙ mod-eq_of_lt h)
  | inr before ↦
      let less : j < primary = ground arith in
      let e : primary + (j + n - primary) ≡ j + n = omega arith in
      let wrap : n ≤ j + n = omega arith in
      let back : (j + n) - n ≡ j = omega arith in
      (
        j + n - primary,
        omega arith,
        ap (λ x. x % n) e ∙ mod-eq-sub-mod wrap ∙ ap (λ x. x % n) back ∙ mod-eq_of_lt h,
      )
]
