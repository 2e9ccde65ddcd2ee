-- ===== src/Control/Policy/Stop.antt =====
-- The firewall lists `stop_container` among its allowed actions, and blocks every command that it
-- builds for it.
use devops_agent.Prelude.{
  ◌≡◌, refl, true, false, not, none, [], ◌∷◌, ◌++◌, any, any-get_elem?, Bool-cases, inl, inr, ap,
  ◌≢◌, ◌⊎◌,
}
use devops_agent.Text.{Text, codes, is_space, text_eq, is_in}
use devops_agent.Regex.{Regex, seq, word_nocase, spaces1, search_in}
use devops_agent.Control.State.{RiskLevel}
use devops_agent.Control.Policy.{
  ActionRequest, allowed, one_of, blocked_command_patterns, is_command_safe, validate_target_name,
  restart_template, checked_command, fill_template, build_safe_command, request_command,
  judge_command, is_action_allowed, evaluate_action,
}

abbrev pub stop_text : Text → Text
stop_text target = codes "docker stop " ++ target

-- `docker\s+(stop|rm|kill)`
abbrev stop_pattern : Regex
stop_pattern =
    seq (word_nocase (codes "docker"))
      (seq spaces1 (one_of (codes "stop" ∷ codes "rm" ∷ codes "kill" ∷ [])))

search-stop : (target : Text) → search_in stop_pattern (stop_text target) ≡ true
unfolding search_in one_of word_nocase is_space
search-stop target = refl

is_command_safe-stop : (target : Text) → is_command_safe (stop_text target) ≡ false
unfolding is_command_safe blocked_command_patterns
is_command_safe-stop target = ap not (
    any-get_elem? (λ pattern. search_in pattern (stop_text target)) blocked_command_patterns 10
      stop_pattern refl (search-stop target))

build_safe_command-stop :
    (target : Text) → build_safe_command (codes "stop_container") target ≡ none
unfolding build_safe_command restart_template text_eq fill_template checked_command
build_safe_command-stop target = elim (Bool-cases (validate_target_name target)) [
  | inl valid ↦ rw (valid, is_command_safe-stop target)
  | inr unsafe ↦ rw unsafe
]

abbrev pub stop_request : Text → Text → ActionRequest
stop_request target command = record {
  action_type = codes "stop_container";
  target = target;
  command = command;
}

judge-stop :
    (target command other allowed_command : Text) (risk : RiskLevel)
    → (command ≡ []) ⊎ (command ≡ stop_text other)
    → judge_command (codes "stop_container") (request_command (stop_request target command) command)
      ≢ allowed allowed_command risk
unfolding judge_command request_command
judge-stop target command other c risk (inl none_given) h =
    cc (rw (none_given, build_safe_command-stop target) at h)
judge-stop target command other c risk (inr given) h =
    cc (rw (given, is_command_safe-stop other) at h)

-- `stop_container` is an allowed action type, and yet no request for it is allowed, whatever its
-- target, that leaves the command to the firewall or gives `docker stop` and any text.
pub evaluate_action-stop :
    (target command other : Text)
    → (command ≡ []) ⊎ (command ≡ stop_text other)
    → (is_action_allowed (codes "stop_container") ≡ true)
      × ((c : Text) (risk : RiskLevel)
          → evaluate_action (stop_request target command) ≢ allowed c risk)
unfolding evaluate_action is_action_allowed is_in text_eq any
evaluate_action-stop target command other given = (
  refl,
  λ c risk h. elim (Bool-cases (validate_target_name target)) [
    | inl valid ↦ judge-stop target command other c risk given (rw valid at h)
    | inr unsafe ↦ cc (rw unsafe at h)
  ],
)
