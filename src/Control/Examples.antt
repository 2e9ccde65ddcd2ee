-- ===== src/Control/Examples.antt =====
-- The theorems of the control loop at concrete inputs.
use devops_agent.Prelude.{
  ◌*◌, not, ◌&&◌, all, length, keep_if, ◌+◌, ◌≤◌, ◌≡◌, ◌≢◌, refl, ◌⊎◌, inl, true, false, [], ◌∷◌,
  any, arith, if◌then◌else◌,
}
use devops_agent.Text.{Text, codes, text_eq, is_in, is_space, ascii_word, is_upper, lower_text}
use devops_agent.Regex.{full_match, search_in}
use devops_agent.Whitelist.{name_regex, is_name_char}
use devops_agent.Control.State.{
  RiskLevel, low, medium, ApprovalStatus, pending, auto_approved, critical,
}
use devops_agent.Control.Policy.{
  ActionRequest, allowed, is_action_allowed, is_command_safe, validate_target_name,
  restart_template, blocked_command_patterns, one_of, fill_template, build_safe_command,
  request_command, verdict_risk, judge_command, evaluate_action, blocked_actions, readonly_actions,
}
use devops_agent.Control.Policy.Verdicts.{is_listed, IsSafeName, CommandOf, evaluate_action-allowed}
use devops_agent.Control.Policy.Stop.{stop_request, evaluate_action-stop}
use devops_agent.Control.Risk.{RiskContext, lifecycle_actions, is_high_risk_target, assess_risk}
use devops_agent.Control.Risk.Bounds.{assess_risk-lifecycle}
use devops_agent.Control.Risk.Monotone.{rank, assess_risk_mono}
use devops_agent.Control.Permissions.{
  ask, ApprovalRequest, evaluate_approval, evaluate_approval_cases,
}
use devops_agent.Control.Loop.{max_actions_per_run, execute_action_flow}
use devops_agent.Control.Loop.Guard.{Guarded, actions_sent, mutations}
use devops_agent.Control.Loop.Approved.{execute_action_flow-Guarded, execute_action_flow-denied}
use devops_agent.Control.Planner.{DiagnosticStep}
use devops_agent.Control.Evidence.{EvidenceState, collect_evidence, Ran, collect_evidence-Ran}
use devops_agent.Control.Loop.Budget.{execute_action_flow-budget}
use devops_agent.Control.Planner.{
  plan_diagnostic_steps, all_steps, matched_paths, extract_keywords, noise_words, is_small_letter,
  letter_runs, find_words,
}
use devops_agent.Control.Planner.Steps.{tool_count, has_tool, plan_diagnostic_steps-once}
use devops_agent.Control.Planner.Keywords.{extract_keywords-live}
use devops_agent.Samples.{ascii, quiet_host, broken_host, restart_web, new_state}

-- a restart that does not help, and its rollback
execute_action_flow-Guarded_example :
    Guarded broken_host (execute_action_flow broken_host true (restart_web ∷ []) new_state []).2
execute_action_flow-Guarded_example =
    execute_action_flow-Guarded broken_host true (restart_web ∷ []) new_state [] tt

execute_action_flow-denied_example :
    mutations
      (quiet_host false)
      (execute_action_flow (quiet_host false) true (restart_web ∷ []) new_state []).2
    ≡ 0
execute_action_flow-denied_example =
    execute_action_flow-denied (quiet_host false) true (restart_web ∷ []) new_state
      (λ h request. refl)

execute_action_flow-budget_example :
    let x = execute_action_flow broken_host true (restart_web ∷ []) new_state [] in
    (x.1.action_count ≤ max_actions_per_run)
    × (actions_sent x.2 + 0 ≤ x.1.action_count)
    × (mutations broken_host x.2 + 2 * 0 ≤ 2 * x.1.action_count)
    × (mutations broken_host x.2 ≤ max_actions_per_run)
execute_action_flow-budget_example =
    execute_action_flow-budget broken_host true (restart_web ∷ []) new_state (omega arith)

abbrev restart_request : ActionRequest
restart_request = record {
  action_type = codes "restart_service";
  target = codes "nginx";
  command = [];
}

restart_allowed : evaluate_action restart_request ≡ allowed (codes "systemctl restart nginx") medium
unfolding evaluate_action is_action_allowed is_in any text_eq validate_target_name full_match
    name_regex is_name_char ascii_word request_command build_safe_command restart_template
    fill_template is_command_safe blocked_command_patterns one_of search_in is_space judge_command
    verdict_risk
restart_allowed = refl

evaluate_action-allowed_example :
    (is_listed (codes "restart_service") ≡ true)
    × (is_in (codes "restart_service") blocked_actions ≡ false)
    × IsSafeName (codes "nginx")
    × (is_command_safe (codes "systemctl restart nginx") ≡ true)
    × CommandOf restart_request (codes "systemctl restart nginx")
    × (medium ≡ (if is_in (codes "restart_service") readonly_actions then low else medium))
evaluate_action-allowed_example =
    evaluate_action-allowed restart_request (codes "systemctl restart nginx") medium restart_allowed

evaluate_action-stop_example :
    (is_action_allowed (codes "stop_container") ≡ true)
    × ((c : Text) (risk : RiskLevel)
        → evaluate_action (stop_request (codes "web") []) ≢ allowed c risk)
evaluate_action-stop_example = evaluate_action-stop (codes "web") [] [] (inl refl)

abbrev unsure : RiskContext
unsure = record { confidence = 0; affected_dependencies = 0 }

abbrev sure : RiskContext
sure = record { confidence = 90; affected_dependencies = 0 }

stop_listed : is_in (codes "stop_container") lifecycle_actions ≡ true
unfolding is_in any text_eq
stop_listed = refl

assess_risk-lifecycle_example :
    let r = assess_risk ascii (codes "stop_container") (codes "redis") unsure in
    ((r.risk_level ≡ low) ⊎ (r.risk_level ≡ medium))
    × (r.reversible ≡ true)
    × (r.rollback_available ≡ true)
assess_risk-lifecycle_example =
    assess_risk-lifecycle ascii (codes "stop_container") (codes "redis") unsure stop_listed refl

redis_is_high : is_high_risk_target ascii (codes "redis") ≡ true
unfolding is_high_risk_target is_in any text_eq lower_text is_upper
redis_is_high = refl

assess_risk-mono_example :
    rank (assess_risk ascii (codes "stop_container") (codes "web") sure).risk_level
    ≤ rank (assess_risk ascii (codes "stop_container") (codes "redis") unsure).risk_level
assess_risk-mono_example =
    assess_risk_mono ascii (codes "stop_container") (codes "web") (codes "redis") sure unsure
      (λ web. redis_is_high) (omega arith) (omega arith)

abbrev critical_restart : ApprovalRequest
critical_restart = record {
  action_type = codes "restart_container";
  target = codes "web";
  command = codes "docker restart web";
  risk_level = critical;
  reversible = true;
}

evaluate_approval_cases_example :
    ((is_in (codes "restart_container") lifecycle_actions ≡ true)
      × (evaluate_approval critical_restart ≡ record { status = pending; requirement = ask }))
    ⊎ ((is_in (codes "restart_container") lifecycle_actions ≡ false)
        × ((evaluate_approval critical_restart).status ≡ auto_approved → critical ≡ low)
        × (critical ≡ low → (evaluate_approval critical_restart).status ≡ auto_approved)
        × ((evaluate_approval critical_restart).status ≡ ApprovalStatus.blocked
            → critical ≡ critical)
        × (critical ≡ critical
            → (evaluate_approval critical_restart).status ≡ ApprovalStatus.blocked))
evaluate_approval_cases_example = evaluate_approval_cases critical_restart

plan_diagnostic_steps-once_example :
    tool_count
      (codes "docker_stats")
      (plan_diagnostic_steps ascii (codes "is docker up") (codes "get_uptime" ∷ []))
    ≡ (if has_tool (codes "docker_stats") (
            all_steps
              (matched_paths (extract_keywords ascii (lower_text ascii (codes "is docker up")))))
          && not (is_in (codes "docker_stats") (codes "get_uptime" ∷ []))
        then 1
        else 0)
plan_diagnostic_steps-once_example =
    plan_diagnostic_steps-once ascii (codes "is docker up") (codes "get_uptime" ∷ [])
      (codes "docker_stats")

extract_keywords-live_example :
    (all is_small_letter (codes "docker") ≡ true)
    × (3 ≤ length (codes "docker"))
    × (is_in (codes "docker") noise_words ≡ false)
unfolding extract_keywords find_words letter_runs is_small_letter is_in noise_words text_eq any
    lower_text ascii_word is_upper keep_if
extract_keywords-live_example =
    extract_keywords-live ascii (codes "is docker up") (codes "docker") refl

abbrev check_docker : DiagnosticStep
check_docker = record {
  tool = codes "docker_health_status";
  arguments = [];
  reason = codes "Check container states";
  priority = 0;
}

-- nineteen tools have run, so only one more may
abbrev almost_done : EvidenceState Text
almost_done = record {
  observations = [];
  executed_tools = [];
  diagnostic_command_count = 19;
  has_hypothesis = false;
  confidence = 0;
  action_count = 0;
}

collect_evidence-Ran_example :
    Ran
      (λ step. step.tool)
      (check_docker ∷ check_docker ∷ [])
      almost_done
      (collect_evidence (λ step. step.tool) (check_docker ∷ check_docker ∷ []) almost_done)
collect_evidence-Ran_example =
    collect_evidence-Ran (λ step. step.tool) (check_docker ∷ check_docker ∷ []) almost_done
      (omega arith)
