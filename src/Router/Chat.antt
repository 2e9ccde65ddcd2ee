-- ===== src/Router/Chat.antt =====
-- One chat request through the router (`LLMRouter.chat` of app/llm_router.py): the first provider, and
-- the race of the others. `now` is the time of the first choice, `later` that of the rest; the primary
-- provider is not switched meanwhile. The providers, the record of usage, and the order in which the
-- calls complete are parameters; the tools that a small model is given are left out.
pub mod Collect
pub mod Answers
use devops_agent.Prelude.{
  ℕ, zero, suc, Bool, true, false, Option, none, some, List, [], ◌∷◌, length, ◌≡◌, if◌then◌else◌,
}
use devops_agent.Text.{Text, Unicode}
use devops_agent.Router.{
  ProviderState, record_success, record_failure, is_excluded, find_next_provider,
}
use devops_agent.Router.Errors.{classify_error, is_retryable}

pub data Reply (R : Type 0) : Type 0 where
  answered : R → Reply R
  failed_with : Text → Reply R

-- What a provider's `chat` gives, by its index; the error that the record of its usage raises, if any
-- (app/usage_tracking.py writes it to a database); and `as_completed`, which yields every call that was
-- submitted once, in some order.
pub record Calls (R : Type 0) : Type 0 where
  pub reply : ℕ → Reply R
  pub usage_error : ℕ → R → Option Text
  pub completed : List ℕ → List ℕ
  pub completed-all : (is : List ℕ) (i : ℕ) → is_excluded i (completed is) ≡ is_excluded i is

-- a result whose usage is recorded, or the error of that
unfoldable pub with_usage : {R : Type 0} → R → Option Text → Reply R
with_usage r none = answered r
with_usage r (some error_msg) = failed_with error_msg

unfoldable pub recorded_reply : {R : Type 0} → (R → Option Text) → Reply R → Reply R
unfolding with_usage
recorded_reply usage_error (answered r) = with_usage r (usage_error r)
recorded_reply usage_error (failed_with error_msg) = failed_with error_msg

-- the `try` around a call: the call, and the record of its usage
unfoldable pub attempt : {R : Type 0} → Calls R → ℕ → Reply R
unfolding recorded_reply
attempt calls i = recorded_reply (calls.usage_error i) (calls.reply i)

-- a change of the state at an index
unfoldable pub change_at :
    ℕ → (ProviderState → ProviderState) → List ProviderState → List ProviderState
change_at i f [] = []
change_at zero f (s ∷ states) = f s ∷ states
change_at (suc i) f (s ∷ states) = s ∷ change_at i f states

-- `record_failure` inside `chat`
unfoldable pub note_failure : Unicode → ℕ → ℕ → Text → List ProviderState → List ProviderState
unfolding change_at classify_error is_retryable
note_failure u now i error_msg states =
    change_at i (record_failure now error_msg (is_retryable (classify_error u error_msg))) states

-- `while True`: the providers that are left, on fuel
unfoldable pub fallback_indices : ℕ → ℕ → ℕ → List ℕ → List ProviderState → List ℕ
unfolding find_next_provider
fallback_indices zero primary now tried states = []
fallback_indices (suc fuel) primary now tried states =
    elim (find_next_provider primary now tried states) [
      | none ↦ []
      | (some i) ↦ i ∷ fallback_indices fuel primary now (i ∷ tried) states
    ]

module _ {R : Type 0} (u : Unicode) (calls : Calls R) where
  unfoldable pub race : ℕ → List ℕ → List ProviderState → Option R × List ProviderState
  unfolding attempt note_failure change_at
  race now [] states = (none, states)
  race now (i ∷ is) states = elim (attempt calls i) [
    | (answered r) ↦ (some r, change_at i (record_success now) states)
    | (failed_with error_msg) ↦ race now is (note_failure u now i error_msg states)
  ]

  -- the fallback providers, all submitted, as they complete
  unfoldable pub fall_back : ℕ → ℕ → List ℕ → List ProviderState → Option R × List ProviderState
  unfolding race fallback_indices
  fall_back primary later tried states =
      race later (calls.completed (fallback_indices (length states) primary later tried states))
        states

  unfoldable pub try_first :
      ℕ → ℕ → ℕ → Option ℕ → List ProviderState → Option R × List ProviderState
  unfolding attempt fall_back note_failure change_at
  try_first primary now later none states = fall_back primary later [] states
  try_first primary now later (some i) states = elim (attempt calls i) [
    | (answered r) ↦ (some r, change_at i (record_success now) states)
    | (failed_with error_msg) ↦
        fall_back primary later (i ∷ []) (note_failure u now i error_msg states)
  ]

  -- none is the `RuntimeError` that all providers are unavailable
  unfoldable pub chat : ℕ → ℕ → ℕ → List ProviderState → Option R × List ProviderState
  unfolding try_first find_next_provider
  chat primary now later states =
      try_first primary now later (find_next_provider primary now [] states) states
