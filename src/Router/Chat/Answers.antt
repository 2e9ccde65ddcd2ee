-- ===== src/Router/Chat/Answers.antt =====
-- When a chat request is answered.
use devops_agent.Prelude.{
  ℕ, zero, suc, ◌≤◌, ◌<◌, ◌≡◌, ◌⊎◌, refl, sym, ap, ◌∙◌, true, false, Option, none, some, List, [],
  ◌∷◌, any, length, get_elem?, ◌==◌, arith, Bool-cases, Option-cases, inl, inr,
}
use devops_agent.Text.{Text, Unicode}
use devops_agent.Router.{
  ProviderState, is_cooled_down, is_failed, is_usable, usable_at, is_excluded, find_next_provider,
}
use devops_agent.Router.Selection.{may_call}
use devops_agent.Router.Chat.{
  Reply, answered, failed_with, Calls, with_usage, recorded_reply, attempt, change_at, note_failure,
  fallback_indices, race, fall_back, try_first, chat,
}
use devops_agent.Router.Chat.Collect.{fallback_indices_complete, none-may_call}

get_elem?-change_at :
    (i j : ℕ) (f : ProviderState → ProviderState) (states : List ProviderState)
    → (i == j) ≡ false
    → get_elem? (change_at i f states) j ≡ get_elem? states j
unfolding change_at
get_elem?-change_at i j f [] h = refl
get_elem?-change_at zero zero f (s ∷ states) h = cc
get_elem?-change_at zero (suc j) f (s ∷ states) h = refl
get_elem?-change_at (suc i) zero f (s ∷ states) h = refl
get_elem?-change_at (suc i) (suc j) f (s ∷ states) h =
    get_elem?-change_at i j f states (ground (arith, h))

get_elem?-note_failure :
    (u : Unicode) (now i j : ℕ) (error_msg : Text) (states : List ProviderState)
    → (i == j) ≡ false
    → get_elem? (note_failure u now i error_msg states) j ≡ get_elem? states j
unfolding note_failure
get_elem?-note_failure u now i j error_msg states h = get_elem?-change_at i j _ states h

length-change_at :
    (i : ℕ) (f : ProviderState → ProviderState) (states : List ProviderState)
    → length (change_at i f states) ≡ length states
unfolding change_at
length-change_at i f [] = refl
length-change_at zero f (s ∷ states) = refl
length-change_at (suc i) f (s ∷ states) = ap suc (length-change_at i f states)

length-note_failure :
    (u : Unicode) (now i : ℕ) (error_msg : Text) (states : List ProviderState)
    → length (note_failure u now i error_msg states) ≡ length states
unfolding note_failure
length-note_failure u now i error_msg states = length-change_at i _ states

is_usable-later :
    (now later : ℕ) (s : ProviderState)
    → now ≤ later
    → is_usable now s ≡ true
    → is_usable later s ≡ true
unfolding is_usable is_cooled_down is_failed
is_usable-later now later s le h = ground (arith, h)

Reply-cases :
    {R : Type 0} (x : Reply R) → ((r : R) × (x ≡ answered r)) ⊎ ((e : Text) × (x ≡ failed_with e))
Reply-cases (answered r) = inl (r, refl)
Reply-cases (failed_with e) = inr (e, refl)

-- a result that is used is the reply, and its usage was recorded
recorded_reply-answered :
    {R : Type 0} (usage_error : R → Option Text) (x : Reply R) (r : R)
    → recorded_reply usage_error x ≡ answered r
    → (x ≡ answered r) × (usage_error r ≡ none)
unfolding recorded_reply
recorded_reply-answered usage_error (failed_with e) r h = cc
recorded_reply-answered usage_error (answered a) r h = elim (Option-cases (usage_error a)) [
  | inl fine ↦
      let this : answered a ≡ answered r = sym (ap (with_usage a) fine) ∙ h in
      let same : a ≡ r = cc in (ap answered same, ap usage_error (sym same) ∙ fine)
  | inr (e, raised) ↦
      let failed : failed_with e ≡ answered r = sym (ap (with_usage a) raised) ∙ h in cc
]

module _ {R : Type 0} (u : Unicode) (calls : Calls R) where
  -- the result is what some provider answered, and its usage was recorded
  abbrev pub IsAnswer : Option R → Type 0
  IsAnswer o =
      (r : R) × (k : ℕ) × (o ≡ some r)
      × (calls.reply k ≡ answered r)
      × (calls.usage_error k r ≡ none)

  IsAnswer-of :
      (o : Option R) (r : R) (k : ℕ) → o ≡ some r → attempt calls k ≡ answered r → IsAnswer o
  unfolding attempt
  IsAnswer-of o r k e got =
      let (reply, recorded) = recorded_reply-answered (calls.usage_error k) (calls.reply k) r got in
      (r, k, e, reply, recorded)

  attempt-answered :
      (j : ℕ) (a : R)
      → calls.reply j ≡ answered a
      → calls.usage_error j a ≡ none
      → attempt calls j ≡ answered a
  unfolding attempt recorded_reply
  attempt-answered j a e recorded =
      ap (recorded_reply (calls.usage_error j)) e ∙ ap (with_usage a) recorded

  race-answered :
      (now i : ℕ) (r : R) (is : List ℕ) (states : List ProviderState)
      → attempt calls i ≡ answered r
      → (race u calls now (i ∷ is) states).0 ≡ some r
  unfolding race
  race-answered now i r is states h = rw (race, h) refl

  race-failed :
      (now i : ℕ) (e : Text) (is : List ℕ) (states : List ProviderState)
      → attempt calls i ≡ failed_with e
      → race u calls now (i ∷ is) states ≡ race u calls now is (note_failure u now i e states)
  unfolding race
  race-failed now i e is states h = rw (race, h) refl

  race-answers :
      (now j : ℕ) (a : R) (is : List ℕ) (states : List ProviderState)
      → is_excluded j is ≡ true
      → attempt calls j ≡ answered a
      → IsAnswer (race u calls now is states).0
  unfolding any
  race-answers now j a [] states h e = cc
  race-answers now j a (i ∷ is) states h e = elim (Reply-cases (attempt calls i)) [
    | inl (r, got) ↦ IsAnswer-of _ r i (race-answered now i r is states got) got
    | inr (error_msg, got) ↦ elim (Bool-cases (i == j)) [
      | inl this ↦ let is_j : i ≡ j = ground arith in cc
      | inr other ↦
          let rest : is_excluded j is ≡ true = ground arith in
          rw (race-failed now i error_msg is states got)
            (race-answers now j a is (note_failure u now i error_msg states) rest e)
    ]
  ]

  fall_back-answers :
      (primary later j : ℕ) (a : R) (tried : List ℕ) (states : List ProviderState)
      → primary < length states
      → may_call later tried states j ≡ true
      → attempt calls j ≡ answered a
      → IsAnswer (fall_back u calls primary later tried states).0
  unfolding fall_back
  fall_back-answers primary later j a tried states p h got =
      let is = fallback_indices (length states) primary later tried states in
      let (same, complete) =
        fallback_indices_complete (length states) primary later tried states j p (omega arith) in
      race-answers later j a (calls.completed is) states (calls.completed-all is j ∙ complete ∙ h)
        got

  -- behind a first provider that failed
  second_chance :
      (primary now later i j : ℕ) (a : R) (s : ProviderState) (error_msg : Text)
      (states : List ProviderState)
      → primary < length states
      → now ≤ later
      → get_elem? states j ≡ some s
      → is_usable now s ≡ true
      → attempt calls j ≡ answered a
      → attempt calls i ≡ failed_with error_msg
      → IsAnswer
          (fall_back u calls primary later (i ∷ []) (note_failure u now i error_msg states)).0
  unfolding usable_at any
  second_chance primary now later i j a s error_msg states p le e h got failed =
      elim (Bool-cases (i == j)) [
        | inl this ↦ let is_j : i ≡ j = ground arith in cc
        | inr other ↦
            let still = is_usable-later now later s le h in
            let found = get_elem?-note_failure u now i j error_msg states other ∙ e in
            let ok : usable_at later j (note_failure u now i error_msg states) ≡ true =
              rw (usable_at, found) still in
            fall_back-answers primary later j a (i ∷ []) (note_failure u now i error_msg states)
              (rw (length-note_failure u now i error_msg states) p) (ground (arith, other, ok)) got
      ]

  -- If some provider is usable, its call answers and the usage is recorded, then the request is
  -- answered, with what a provider gave and whose usage was recorded, whichever of the other calls
  -- fail and in whatever order the calls complete; the primary index is one of a provider, and
  -- `later`, when the other providers are looked at, is not before `now`.
  pub chat-answers :
      (primary now later j : ℕ) (a : R) (s : ProviderState) (states : List ProviderState)
      → primary < length states
      → now ≤ later
      → get_elem? states j ≡ some s
      → is_usable now s ≡ true
      → calls.reply j ≡ answered a
      → calls.usage_error j a ≡ none
      → IsAnswer (chat u calls primary now later states).0
  unfolding chat try_first usable_at any
  chat-answers primary now later j a s states p le e h reply recorded =
      let got = attempt-answered j a reply recorded in
      let usable : usable_at now j states ≡ true = rw (usable_at, e) h in
      elim (Option-cases (find_next_provider primary now [] states)) [
        | inl stopped ↦ let refused = none-may_call primary now [] states j p stopped in cc
        | inr (i, found) ↦ rw found (elim (Reply-cases (attempt calls i)) [
          | inl (r, here) ↦ IsAnswer-of _ r i (rw (try_first, here) refl) here
          | inr (error_msg, here) ↦
              rw (try_first, here)
                (second_chance primary now later i j a s error_msg states p le e h got here)
        ])
      ]
