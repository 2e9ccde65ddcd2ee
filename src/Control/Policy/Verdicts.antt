-- ===== src/Control/Policy/Verdicts.antt =====
-- What a verdict of the firewall says of the request.
use devops_agent.Prelude.{
  ◌≡◌, refl, sym, ◌∙◌, Bool, true, false, ◌||◌, ◌⊎◌, inl, inr, Option, none, some, [], ◌∷◌, ◌++◌,
  arith, Bool-cases, if◌then◌else◌,
}
use devops_agent.Text.{Text, is_in}
use devops_agent.Regex.Repeat.{IsLineEnd, IsRun, full_match-repeat1}
use devops_agent.Whitelist.{is_name_char, name_regex}
use devops_agent.Control.State.{RiskLevel, low, medium}
use devops_agent.Control.Policy.{
  ActionRequest, allowed, blocked_actions, readonly_actions, allowed_container_actions,
  allowed_service_actions, is_action_allowed, is_command_safe, validate_target_name,
  restart_template, checked_command, fill_template, build_safe_command, request_command,
  verdict_risk, judge_command, evaluate_action,
}

-- 1 to 128 letters, digits, underscores, dots and dashes, and at most one newline behind them
abbrev pub IsSafeName : Text → Type 0
IsSafeName s = (w : Text) × (t : Text) × (s ≡ w ++ t) × IsRun is_name_char 128 w × IsLineEnd t

pub validate_target_name-IsSafeName : (s : Text) → validate_target_name s ≡ true → IsSafeName s
unfolding validate_target_name name_regex
validate_target_name-IsSafeName [] h = cc
validate_target_name-IsSafeName (c ∷ s) h = full_match-repeat1 is_name_char 127 (c ∷ s) h

abbrev pub is_listed : Text → Bool
is_listed t =
    is_in t readonly_actions || is_in t allowed_container_actions || is_in t allowed_service_actions

fill_template-is_command_safe :
    (template : Option Text) (target command : Text)
    → fill_template template target ≡ some command
    → is_command_safe command ≡ true
unfolding fill_template checked_command
fill_template-is_command_safe none target command h = cc
fill_template-is_command_safe (some t) target command h = ground arith

-- What the firewall builds itself has passed its own check of commands.
pub build_safe_command-is_command_safe :
    (action_type target command : Text)
    → build_safe_command action_type target ≡ some command
    → (is_command_safe command ≡ true) × (validate_target_name target ≡ true)
unfolding build_safe_command
build_safe_command-is_command_safe action_type target command h =
    ground (arith, fill_template-is_command_safe (restart_template action_type) target command)

abbrev pub CommandOf : ActionRequest → Text → Type 0
CommandOf request command =
    (request.command ≡ command)
    ⊎ ((request.command ≡ [])
        × (build_safe_command request.action_type request.target ≡ some command))

request_command-CommandOf :
    (request : ActionRequest) (given command : Text)
    → request.command ≡ given
    → request_command request given ≡ some command
    → CommandOf request command
unfolding request_command
request_command-CommandOf request [] command e h = inr (e, h)
request_command-CommandOf request (c ∷ s) command e h = inl (e ∙ ground (arith, h))

judge_command-allowed :
    (action_type : Text) (o : Option Text) (command : Text) (risk : RiskLevel)
    → judge_command action_type o ≡ allowed command risk
    → (o ≡ some command) × (is_command_safe command ≡ true) × (verdict_risk action_type ≡ risk)
unfolding judge_command
judge_command-allowed action_type none command risk h = cc
judge_command-allowed action_type (some c) command risk h = ground arith

is_action_allowed-is_listed : (t : Text) → is_action_allowed t ≡ true → is_listed t ≡ true
unfolding is_action_allowed
is_action_allowed-is_listed t h = ground arith

not_blocked : (t : Text) → is_action_allowed t ≡ true → is_in t blocked_actions ≡ false
unfolding is_action_allowed
not_blocked t h = ground arith

verdict_risk-listed :
    (t : Text)
    → is_listed t ≡ true
    → verdict_risk t ≡ (if is_in t readonly_actions then low else medium)
unfolding verdict_risk
verdict_risk-listed t h = ground arith

-- An allowed request has a listed action type that is not blocked, a target that is a safe name
-- (up to a final newline), and a command that matches no blocked pattern and is the request's own
-- or the built one; its risk is low for read-only action types and medium for the others.
pub evaluate_action-allowed :
    (request : ActionRequest) (command : Text) (risk : RiskLevel)
    → evaluate_action request ≡ allowed command risk
    → (is_listed request.action_type ≡ true)
      × (is_in request.action_type blocked_actions ≡ false)
      × IsSafeName request.target
      × (is_command_safe command ≡ true)
      × CommandOf request command
      × (risk ≡ (if is_in request.action_type readonly_actions then low else medium))
unfolding evaluate_action
evaluate_action-allowed request command risk h =
    elim (Bool-cases (is_action_allowed request.action_type)) [
      | inr refused_type ↦ cc (rw refused_type at h)
      | inl listed ↦ elim (Bool-cases (validate_target_name request.target)) [
        | inr unsafe ↦ cc (rw (listed, unsafe) at h)
        | inl safe ↦
            let known = is_action_allowed-is_listed request.action_type listed in
            let (chosen, checked, r) =
              judge_command-allowed request.action_type (request_command request request.command)
                command risk (rw (listed, safe) at h) in
            (
              known,
              not_blocked request.action_type listed,
              validate_target_name-IsSafeName request.target safe,
              checked,
              request_command-CommandOf request request.command command refl chosen,
              sym r ∙ verdict_risk-listed request.action_type known,
            )
      ]
    ]
