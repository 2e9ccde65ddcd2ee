-- ===== src/Router/Chat/Collect.antt =====
-- The loop that collects the fallback providers ends by itself within as many rounds as there are
-- providers, and misses none.
use devops_agent.Prelude.{
  ℕ, zero, suc, ◌+◌, ◌%◌, ◌≤◌, ◌<◌, ◌≡◌, refl, sym, ap, ◌∙◌, true, false, ◌&&◌, not, none, some,
  List, [], ◌∷◌, any, length, get_elem?, ◌==◌, if◌then◌else◌, if_true, if_false, arith, Bool-cases,
  Option-cases, inl, inr,
}
use devops_agent.Router.{ProviderState, usable_at, is_excluded, places, find_in, find_next_provider}
use devops_agent.Router.Selection.{
  may_call, find_in-step, find_in-may_call, find_in-places, place_of,
}
use devops_agent.Router.Chat.{fallback_indices}

-- how many of the indices may be called
abbrev pub candidates : ℕ → List ℕ → List ProviderState → List ℕ → ℕ
candidates now tried states [] = 0
candidates now tried states (j ∷ js) =
    let rest = candidates now tried states js in
    if may_call now tried states j then suc rest else rest

length-places : (primary n i left : ℕ) → length (places primary n i left) ≡ left
unfolding places
length-places primary n i zero = omega arith
length-places primary n i (suc left) = omega (arith, length-places primary n (i + 1) left)

candidates-le-length :
    (now : ℕ) (tried : List ℕ) (states : List ProviderState) (js : List ℕ)
    → candidates now tried states js ≤ length js
candidates-le-length now tried states [] = omega arith
candidates-le-length now tried states (j ∷ js) =
    ground (arith, candidates-le-length now tried states js)

candidates-more_tried :
    (now k : ℕ) (tried : List ℕ) (states : List ProviderState) (js : List ℕ)
    → candidates now (k ∷ tried) states js ≤ candidates now tried states js
unfolding any
candidates-more_tried now k tried states [] = omega arith
candidates-more_tried now k tried states (j ∷ js) =
    ground (arith, candidates-more_tried now k tried states js)

candidates-chosen :
    (now k : ℕ) (tried : List ℕ) (states : List ProviderState) (js : List ℕ)
    → find_in now tried states js ≡ some k
    → candidates now (k ∷ tried) states js < candidates now tried states js
unfolding any find_in
candidates-chosen now k tried states [] h = cc
candidates-chosen now k tried states (j ∷ js) h =
    let fewer = candidates-more_tried now k tried states js in
    elim (Bool-cases (may_call now tried states j)) [
      | inl chosen ↦
          let this : some j ≡ some k =
            sym (find_in-step now tried states j js ∙ if_true _ _ chosen) ∙ h in
          let is_k : j ≡ k = cc in ground arith
      | inr skipped ↦
          let later : find_in now tried states js ≡ some k =
            sym (find_in-step now tried states j js ∙ if_false _ _ skipped) ∙ h in
          let rest = candidates-chosen now k tried states js later in ground arith
    ]

-- the order of the source
abbrev order : ℕ → List ProviderState → List ℕ
order primary states = places primary (length states) 0 (length states)

fallback_indices_step :
    (fuel primary now k : ℕ) (tried : List ℕ) (states : List ProviderState)
    → find_next_provider primary now tried states ≡ some k
    → fallback_indices (suc fuel) primary now tried states
      ≡ k ∷ fallback_indices fuel primary now (k ∷ tried) states
unfolding fallback_indices
fallback_indices_step fuel primary now k tried states h = rw (fallback_indices, h)

fallback_indices_stop :
    (fuel primary now : ℕ) (tried : List ℕ) (states : List ProviderState)
    → find_next_provider primary now tried states ≡ none
    → fallback_indices fuel primary now tried states ≡ []
unfolding fallback_indices
fallback_indices_stop zero primary now tried states h = refl
fallback_indices_stop (suc fuel) primary now tried states h = rw (fallback_indices, h)

fewer_left :
    (primary now k : ℕ) (tried : List ℕ) (states : List ProviderState)
    → find_next_provider primary now tried states ≡ some k
    → candidates now (k ∷ tried) states (order primary states)
      < candidates now tried states (order primary states)
unfolding find_next_provider
fewer_left primary now k tried states h =
    candidates-chosen now k tried states (order primary states) h

none_left :
    (primary now : ℕ) (tried : List ℕ) (states : List ProviderState)
    → candidates now tried states (order primary states) ≤ 0
    → find_next_provider primary now tried states ≡ none
none_left primary now tried states h =
    elim (Option-cases (find_next_provider primary now tried states)) [
      | inl stopped ↦ stopped
      | inr (k, found) ↦
          let fewer = fewer_left primary now k tried states found in absurd (omega arith)
    ]

-- any two amounts of fuel that are enough collect the same
fallback_indices_same :
    (fuel more primary now : ℕ) (tried : List ℕ) (states : List ProviderState)
    → candidates now tried states (order primary states) ≤ fuel
    → candidates now tried states (order primary states) ≤ more
    → fallback_indices fuel primary now tried states
      ≡ fallback_indices more primary now tried states
unfolding fallback_indices
fallback_indices_same zero more primary now tried states h g =
    sym (fallback_indices_stop more primary now tried states (none_left primary now tried states h))
fallback_indices_same (suc fuel) zero primary now tried states h g =
    fallback_indices_stop (suc fuel) primary now tried states (none_left primary now tried states g)
fallback_indices_same (suc fuel) (suc more) primary now tried states h g =
    elim (Option-cases (find_next_provider primary now tried states)) [
      | inl stopped ↦
          fallback_indices_stop (suc fuel) primary now tried states stopped
          ∙ sym (fallback_indices_stop (suc more) primary now tried states stopped)
      | inr (k, found) ↦
          let fewer = fewer_left primary now k tried states found in
          fallback_indices_step fuel primary now k tried states found
          ∙ ap (λ is. k ∷ is)
              (fallback_indices_same fuel more primary now (k ∷ tried) states (omega arith)
                (omega arith))
          ∙ sym (fallback_indices_step more primary now k tried states found)
    ]

pub found_may_call :
    (primary now k : ℕ) (tried : List ℕ) (states : List ProviderState)
    → find_next_provider primary now tried states ≡ some k
    → may_call now tried states k ≡ true
unfolding find_next_provider
found_may_call primary now k tried states h =
    find_in-may_call now tried states (order primary states) k h

get_elem?-length :
    (states : List ProviderState) (j : ℕ) (s : ProviderState)
    → get_elem? states j ≡ some s
    → j < length states
get_elem?-length [] j s h = cc
get_elem?-length (x ∷ states) zero s h = omega arith
get_elem?-length (x ∷ states) (suc j) s h = omega (arith, get_elem?-length states j s h)

usable_at-length :
    (now j : ℕ) (states : List ProviderState) → usable_at now j states ≡ true → j < length states
unfolding usable_at
usable_at-length now j states h = elim (Option-cases (get_elem? states j)) [
  | inl outside ↦ let no : usable_at now j states ≡ false = rw (usable_at, outside) refl in cc
  | inr (s, found) ↦ get_elem?-length states j s found
]

-- if no provider is found, none may be called
pub none-may_call :
    (primary now : ℕ) (tried : List ℕ) (states : List ProviderState) (j : ℕ)
    → primary < length states
    → find_next_provider primary now tried states ≡ none
    → may_call now tried states j ≡ false
unfolding find_next_provider
none-may_call primary now tried states j p h = elim (Bool-cases (may_call now tried states j)) [
  | inr refused ↦ refused
  | inl may ↦
      let (d, small, here) =
        place_of primary (length states) j p (usable_at-length now j states (ground arith)) in
      let at_d : may_call now tried states ((primary + d) % length states) ≡ true = rw here may in
      let (k, found, near) =
        find_in-places now tried states primary (length states) 0 (length states) d (omega arith)
          (omega arith) at_d in
      cc
]

pub may_call-other :
    (now k j : ℕ) (tried : List ℕ) (states : List ProviderState)
    → (k == j) ≡ false
    → may_call now (k ∷ tried) states j ≡ may_call now tried states j
unfolding any
may_call-other now k j tried states other = ground (arith, other)

-- with enough fuel, those that may be called are collected, and no others
fallback_indices_enough :
    (fuel primary now : ℕ) (tried : List ℕ) (states : List ProviderState) (j : ℕ)
    → primary < length states
    → candidates now tried states (order primary states) ≤ fuel
    → is_excluded j (fallback_indices fuel primary now tried states) ≡ may_call now tried states j
unfolding any fallback_indices
fallback_indices_enough zero primary now tried states j p few =
    sym (none-may_call primary now tried states j p (none_left primary now tried states few))
fallback_indices_enough (suc fuel) primary now tried states j p few =
    elim (Option-cases (find_next_provider primary now tried states)) [
      | inl stopped ↦
          ap (is_excluded j) (fallback_indices_stop (suc fuel) primary now tried states stopped)
          ∙ sym (none-may_call primary now tried states j p stopped)
      | inr (k, found) ↦
          let fewer = fewer_left primary now k tried states found in
          let rest =
            fallback_indices_enough fuel primary now (k ∷ tried) states j p (omega arith) in
          ap (is_excluded j) (fallback_indices_step fuel primary now k tried states found)
          ∙ (elim (Bool-cases (k == j)) [
            | inl this ↦
                let is_j : k ≡ j = ground arith in
                let may : may_call now tried states k ≡ true =
                  found_may_call primary now k tried states found in
                let same : may_call now tried states j ≡ true = rw (← is_j) may in ground arith
            | inr other ↦ let same = may_call-other now k j tried states other in ground arith
          ])
    ]

-- The loop that collects the fallback providers stops by itself: with as many rounds of fuel as there
-- are providers, or more, it collects the same list. On it are exactly the providers that are usable
-- and were not tried; the primary index is one of a provider.
pub fallback_indices_complete :
    (fuel primary now : ℕ) (tried : List ℕ) (states : List ProviderState) (j : ℕ)
    → primary < length states
    → length states ≤ fuel
    → (fallback_indices fuel primary now tried states
        ≡ fallback_indices (length states) primary now tried states)
      × (is_excluded j (fallback_indices fuel primary now tried states)
          ≡ (not (is_excluded j tried) && usable_at now j states))
fallback_indices_complete fuel primary now tried states j p h =
    let few = candidates-le-length now tried states (order primary states) in
    let all = length-places primary (length states) 0 (length states) in
    (
      fallback_indices_same fuel (length states) primary now tried states (omega arith)
          (omega arith),
      fallback_indices_enough fuel primary now tried states j p (omega arith),
    )
