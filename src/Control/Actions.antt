-- ===== src/Control/Actions.antt =====
-- The executable actions (app/control/actions.py).
use devops_agent.Prelude.{Bool, true, false, Option, none, some, ◌++◌, if◌then◌else◌}
use devops_agent.Text.{Unicode, Text, is_in}
use devops_agent.Whitelist.{is_action_command_allowed}
use devops_agent.Control.Risk.{lifecycle_actions}
use devops_agent.Control.Policy.{restart_template, validate_target_name}
use devops_agent.Control.Host.{Host, RunResult, finished, failed, History, run_action_command}

-- `CONFIGURABLE_ALLOWED_ACTIONS` has the keys and the templates of the policy's table
unfoldable pub is_action_executable : Text → Bool
is_action_executable action_type = is_in action_type lifecycle_actions

unfoldable pub allowed_only : Unicode → Text → Option Text
allowed_only u command = if is_action_command_allowed u command then some command else none

unfoldable pub fill_action : Unicode → Option Text → Text → Option Text
unfolding allowed_only
fill_action u none target = none
fill_action u (some template) target =
    if validate_target_name target then allowed_only u (template ++ target) else none

unfoldable pub build_action_command : Unicode → Text → Text → Option Text
build_action_command u action_type target = fill_action u (restart_template action_type) target

pub data ActionResult : Type 0 where
  done : Text → ActionResult
  not_listed no_command run_failed : ActionResult

abbrev pub is_done : ActionResult → Bool
is_done (done command) = true
is_done _ = false

unfoldable pub result_of : Text → RunResult → ActionResult
result_of command (finished out zero_code) = done command
result_of command failed = run_failed

unfoldable pub send : Host → Option Text → History → ActionResult × History
unfolding result_of
send host none h = (no_command, h)
send host (some command) h =
    let (r, h') = run_action_command host command h in (result_of command r, h')

unfoldable pub execute_action : Host → Text → Text → History → ActionResult × History
execute_action host action_type target h =
    if is_action_executable action_type
    then send host (build_action_command host.unicode action_type target) h
    else (not_listed, h)
