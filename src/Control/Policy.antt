-- ===== src/Control/Policy.antt =====
-- The action policy firewall (app/control/policy.py). Texts are code points; a reason in prose is a
-- constructor of `Refusal`.
pub mod Verdicts
pub mod Stop
use devops_agent.Prelude.{
  ℕ, Bool, true, false, not, ◌||◌, Option, none, some, List, [], ◌∷◌, ◌++◌, ◌==◌, if◌then◌else◌,
  any,
}
use devops_agent.Text.{Text, codes, text_eq, is_in}
use devops_agent.Regex.{
  Regex, empty, cls, seq, alt, star, chr, word_nocase, space, spaces, spaces1, search_in,
  full_match,
}
use devops_agent.Whitelist.{name_regex}
use devops_agent.Control.State.{RiskLevel, low, medium, high}

pub record ActionRequest : Type 0 where
  pub action_type : Text
  pub target : Text
  pub command : Text

abbrev pub allowed_container_actions : List Text
allowed_container_actions =
    codes "start_container" ∷ codes "stop_container" ∷ codes "restart_container" ∷ []

abbrev pub allowed_service_actions : List Text
allowed_service_actions = codes "restart_service" ∷ []

abbrev pub readonly_actions : List Text
readonly_actions = codes "check_status" ∷ codes "get_info" ∷ codes "diagnose" ∷ []

abbrev pub blocked_actions : List Text
blocked_actions =
    codes "rm"
    ∷ codes "delete"
    ∷ codes "destroy"
    ∷ codes "remove"
    ∷ codes "docker_system_prune"
    ∷ codes "docker_prune"
    ∷ codes "kubectl_delete"
    ∷ codes "kubectl_apply"
    ∷ codes "kubectl_exec"
    ∷ codes "kubectl_create"
    ∷ codes "kubectl_patch"
    ∷ codes "kubectl_edit"
    ∷ codes "package_install"
    ∷ codes "apt_install"
    ∷ codes "pip_install"
    ∷ codes "firewall_modify"
    ∷ codes "ufw"
    ∷ codes "iptables"
    ∷ codes "user_create"
    ∷ codes "user_delete"
    ∷ codes "user_modify"
    ∷ codes "ssh_config_modify"
    ∷ codes "database_drop"
    ∷ codes "database_delete"
    ∷ codes "database_truncate"
    ∷ codes "shell_execute"
    ∷ codes "arbitrary_command"
    ∷ codes "sudo"
    ∷ []

-- one of the words
unfoldable pub one_of : List Text → Regex
unfolding word_nocase
one_of [] = cls (λ c. false)
one_of (w ∷ ws) = alt (word_nocase w) (one_of ws)

-- `name\s.*\|\s*(ba)?sh`
unfoldable pub piped_to_shell : Text → Regex
unfolding word_nocase
piped_to_shell name = seq (word_nocase name) (
    seq space (
      seq (star (λ c. not (c == 10))) (
        seq (chr b'|')
          (seq spaces (seq (alt (word_nocase (codes "ba")) empty) (word_nocase (codes "sh")))))))

-- `_BLOCKED_COMMAND_PATTERNS`, searched with `re.IGNORECASE`
unfoldable pub blocked_command_patterns : List Regex
unfolding one_of piped_to_shell word_nocase
blocked_command_patterns =
    seq (word_nocase (codes "rm")) space
    ∷ seq (word_nocase (codes "rm")) (seq spaces1 (chr b'-'))
    ∷ word_nocase (codes "delete")
    ∷ word_nocase (codes "destroy")
    ∷ piped_to_shell (codes "curl")
    ∷ piped_to_shell (codes "wget")
    ∷ seq (word_nocase (codes "sudo")) space
    ∷ seq (word_nocase (codes "docker")) (seq spaces1 (word_nocase (codes "exec")))
    ∷ seq (word_nocase (codes "kubectl")) (
        seq spaces1 (
          one_of (
            codes "delete"
            ∷ codes "apply"
            ∷ codes "create"
            ∷ codes "patch"
            ∷ codes "edit"
            ∷ codes "exec"
            ∷ [])))
    ∷ seq (word_nocase (codes "systemctl"))
        (seq spaces1 (one_of (codes "stop" ∷ codes "disable" ∷ [])))
    ∷ seq (word_nocase (codes "docker"))
        (seq spaces1 (one_of (codes "stop" ∷ codes "rm" ∷ codes "kill" ∷ [])))
    ∷ []

unfoldable pub is_action_allowed : Text → Bool
is_action_allowed action_type =
    if is_in action_type blocked_actions
    then false
    else (if is_in action_type readonly_actions
        then true
        else (if is_in action_type allowed_container_actions
            then true
            else (if is_in action_type allowed_service_actions then true else false)))

unfoldable pub is_command_safe : Text → Bool
is_command_safe [] = false
is_command_safe (c ∷ s) = not (any (λ pattern. search_in pattern (c ∷ s)) blocked_command_patterns)

-- `_SAFE_NAME_RE` is the whitelist's `_NAME_RE`; the empty name does not match it
unfoldable pub validate_target_name : Text → Bool
validate_target_name [] = false
validate_target_name (c ∷ s) = full_match name_regex (c ∷ s)

-- `_ALLOWED_RESTART_COMMANDS.get(action_type)`, up to the slot at its end
unfoldable pub restart_template : Text → Option Text
restart_template action_type =
    if text_eq action_type (codes "start_container")
    then some (codes "docker start ")
    else (if text_eq action_type (codes "stop_container")
        then some (codes "docker stop ")
        else (if text_eq action_type (codes "restart_container")
            then some (codes "docker restart ")
            else (if text_eq action_type (codes "restart_service")
                then some (codes "systemctl restart ")
                else none)))

checked_command : Text → Option Text
checked_command command = if is_command_safe command then some command else none

unfoldable pub fill_template : Option Text → Text → Option Text
unfolding checked_command
fill_template none target = none
fill_template (some template) target = checked_command (template ++ target)

unfoldable pub build_safe_command : Text → Text → Option Text
build_safe_command action_type target =
    if validate_target_name target
    then fill_template (restart_template action_type) target
    else none

pub data Refusal : Type 0 where
  action_not_listed unsafe_target no_safe_command blocked_pattern : Refusal

pub data Verdict : Type 0 where
  allowed : Text → RiskLevel → Verdict
  refused : Refusal → Verdict

-- `request.command`, or the built one where it is empty
unfoldable pub request_command : ActionRequest → Text → Option Text
request_command request [] = build_safe_command request.action_type request.target
request_command request (c ∷ s) = some (c ∷ s)

unfoldable pub verdict_risk : Text → RiskLevel
verdict_risk action_type =
    if is_in action_type readonly_actions
    then low
    else (if is_in action_type allowed_container_actions
          || is_in action_type allowed_service_actions
        then medium
        else high)

unfoldable pub judge_command : Text → Option Text → Verdict
judge_command action_type none = refused no_safe_command
judge_command action_type (some command) =
    if is_command_safe command
    then allowed command (verdict_risk action_type)
    else refused blocked_pattern

unfoldable pub evaluate_action : ActionRequest → Verdict
evaluate_action request =
    if is_action_allowed request.action_type
    then (if validate_target_name request.target
        then judge_command request.action_type (request_command request request.command)
        else refused unsafe_target)
    else refused action_not_listed
