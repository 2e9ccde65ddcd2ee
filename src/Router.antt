-- ===== src/Router.antt =====
-- The LLM router (app/llm_router.py): the state of each provider, its cooldown, and the choice of the
-- next one. `_primary_index` is the argument `primary`: 0 from the constructor on, and another valid
-- index behind `switch_provider` of app/api/app.py. Times are arguments, in seconds. `record_failure`
-- takes `retryable`; the class of an error and `chat` are in the child modules.
pub mod Availability
pub mod Selection
pub mod Errors
pub mod Chat
mod Examples
use devops_agent.Prelude.{
  zero, suc, ◌%◌, length, get_elem?, ℕ, ◌+◌, ◌*◌, ◌^◌, ◌-◌, min, Bool, true, false, ◌&&◌, ◌||◌, not,
  Option, none, some, List, [], ◌∷◌, any, leb, ◌==◌, if◌then◌else◌,
}
use devops_agent.Text.{Text}

-- the two other constants of the source are never assigned
pub data Status : Type 0 where
  available failed cooldown : Status

pub record ProviderState : Type 0 where
  pub status : Status
  pub failures : ℕ
  pub cooldown_until : ℕ
  pub last_error : Text
  pub total_requests : ℕ
  pub total_failures : ℕ
  pub last_request_time : ℕ

abbrev pub default_cooldown_seconds : ℕ
default_cooldown_seconds = 30

abbrev pub max_cooldown_seconds : ℕ
max_cooldown_seconds = 300

unfoldable pub is_cooled_down : ℕ → ProviderState → Bool
is_cooled_down now s = leb s.cooldown_until now

unfoldable pub is_failed : Status → Bool
is_failed failed = true
is_failed _ = false

unfoldable pub is_usable : ℕ → ProviderState → Bool
unfolding is_cooled_down is_failed
is_usable now s = not (is_failed s.status) && is_cooled_down now s

unfoldable pub record_success : ℕ → ProviderState → ProviderState
record_success now s = record s {
  failures = 0;
  status = available;
  cooldown_until = 0;
  total_requests = s.total_requests + 1;
  last_request_time = now;
}

-- the cooldown behind the n-th failure in a row
unfoldable pub backoff : ℕ → ℕ
backoff failures = min (default_cooldown_seconds * 2 ^ (failures - 1)) max_cooldown_seconds

unfoldable pub record_failure : ℕ → Text → Bool → ProviderState → ProviderState
unfolding backoff
record_failure now error_msg retryable s =
    let counted = record s {
      failures = s.failures + 1;
      total_failures = s.total_failures + 1;
      last_error = error_msg;
      total_requests = s.total_requests + 1;
      last_request_time = now;
    } in
    if retryable
    then record counted { cooldown_until = now + backoff counted.failures; status = cooldown }
    else record counted { status = failed }

abbrev pub is_excluded : ℕ → List ℕ → Bool
is_excluded i exclude = any (λ j. j == i) exclude

-- `self._states[idx].is_usable`
unfoldable pub usable_at : ℕ → ℕ → List ProviderState → Bool
unfolding is_usable
usable_at now idx states = elim (get_elem? states idx) [ none ↦ false | (some s) ↦ is_usable now s ]

-- `(primary + i) % n`, and so on for `left` values of i
unfoldable pub places : ℕ → ℕ → ℕ → ℕ → List ℕ
places primary n i zero = []
places primary n i (suc left) = ((primary + i) % n) ∷ places primary n (i + 1) left

-- the first of the indices that may be called
unfoldable pub find_in : ℕ → List ℕ → List ProviderState → List ℕ → Option ℕ
unfolding usable_at
find_in now exclude states [] = none
find_in now exclude states (idx ∷ indices) =
    let rest = find_in now exclude states indices in
    if is_excluded idx exclude then rest else (if usable_at now idx states then some idx else rest)

unfoldable pub find_next_provider : ℕ → ℕ → List ℕ → List ProviderState → Option ℕ
unfolding find_in places
find_next_provider primary now exclude states =
    find_in now exclude states (places primary (length states) 0 (length states))
