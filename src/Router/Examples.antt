-- ===== src/Router/Examples.antt =====
-- The theorems of the router at concrete providers.
use devops_agent.Prelude.{
  ℕ, zero, suc, ◌+◌, ◌*◌, ◌^◌, ◌%◌, ◌≤◌, min, ◌≡◌, ◌↔◌, refl, true, false, ◌&&◌, not, none, some,
  List, [], ◌∷◌, length, get_elem?, any, arith,
}
use devops_agent.Text.{Text, codes}
use devops_agent.Samples.{ascii}
use devops_agent.Router.{
  ProviderState, available, cooldown, is_cooled_down, is_failed, is_usable, usable_at, places,
  record_failure, is_excluded, find_in, find_next_provider,
}
use devops_agent.Router.Availability.{is_usable-record_failure}
use devops_agent.Router.Selection.{find_next_provider-may_call, find_next_provider-first}
use devops_agent.Router.Chat.{Reply, answered, failed_with, Calls, fallback_indices, chat}
use devops_agent.Router.Chat.Collect.{fallback_indices_complete}
use devops_agent.Router.Chat.Answers.{IsAnswer, chat-answers}

abbrev fresh : ProviderState
fresh = record {
  status = available;
  failures = 0;
  cooldown_until = 0;
  last_error = [];
  total_requests = 0;
  total_failures = 0;
  last_request_time = 0;
}

-- the first provider is in its second cooldown, the second one is free
abbrev providers : List ProviderState
providers =
    record fresh { status = cooldown; failures = 2; cooldown_until = 1060 } ∷ fresh ∷ fresh ∷ []

is_usable-record_failure_example :
    (is_usable 1030 (record_failure 1000 (codes "429") true fresh) ≡ true)
    ↔ (1000 + min (30 * 2 ^ 0) 300 ≤ 1030)
is_usable-record_failure_example = is_usable-record_failure 1000 1030 (codes "429") fresh

find_next_provider-may_call_example :
    (is_excluded 2 (1 ∷ []) ≡ false)
    × (s : ProviderState) × (get_elem? providers 2 ≡ some s)
    × (is_usable 1000 s ≡ true)
unfolding find_next_provider find_in places usable_at is_usable is_cooled_down is_failed any
find_next_provider-may_call_example = find_next_provider-may_call 2 1000 (1 ∷ []) 2 providers refl

-- from the third provider on, the second one is two places further
find_next_provider-first_example :
    (k : ℕ) × (find_next_provider 2 1000 (2 ∷ []) providers ≡ some ((2 + k) % 3)) × (k ≤ 2)
unfolding is_usable is_cooled_down is_failed any
find_next_provider-first_example =
    find_next_provider-first 2 1000 (2 ∷ []) 2 fresh providers (omega arith) refl refl refl

fallback_indices_complete_example :
    (fallback_indices 5 1 2000 (1 ∷ []) providers
      ≡ fallback_indices (length providers) 1 2000 (1 ∷ []) providers)
    × (is_excluded 2 (fallback_indices 5 1 2000 (1 ∷ []) providers)
        ≡ (not (is_excluded 2 (1 ∷ [])) && usable_at 2000 2 providers))
fallback_indices_complete_example =
    fallback_indices_complete 5 1 2000 (1 ∷ []) providers 2 (omega arith) (omega arith)

-- the second provider refuses, the third answers
abbrev second_fails : ℕ → Reply Text
second_fails (suc zero) = failed_with (codes "429")
second_fails _ = answered (codes "done")

abbrev calls : Calls Text
calls = record {
  reply = second_fails;
  usage_error = λ i r. none;
  completed = λ is. is;
  completed-all = λ is i. refl;
}

chat-answers_example : IsAnswer ascii calls (chat ascii calls 1 1000 1001 providers).0
unfolding is_usable is_cooled_down is_failed
chat-answers_example =
    chat-answers ascii calls 1 1000 1001 2 (codes "done") fresh providers (omega arith)
      (omega arith) refl refl refl refl
