-- ===== src/Control/Host.antt =====
-- What the control loop calls outside itself, and in which order: the executor (app/executor.py,
-- `run_command` and `run_action_command`) and the operator. The history of the calls is the state;
-- an answer may depend on all that was called before it.
use devops_agent.Prelude.{Bool, true, false, List, ◌∷◌, if◌then◌else◌}
use devops_agent.Text.{Unicode, Text}
use devops_agent.Whitelist.{Item, is_command_allowed, is_action_command_allowed}
use devops_agent.Control.Permissions.{ApprovalRequest}

-- The dict of `Executor.execute`: with `success` and the output, or with an error. `exit_zero` says
-- whether its exit code is 0.
pub data RunResult : Type 0 where
  finished : Text → Bool → RunResult
  failed : RunResult

pub data Call : Type 0 where
  -- the operator's answer to a request
  asked : ApprovalRequest → Bool → Call
  -- a command that `run_action_command` and `run_command` passed to the executor
  action_run : Text → RunResult → Call
  command_run : Text → RunResult → Call

-- newest first
abbrev pub History : Type 0
History = List Call

pub record Host : Type 0 where
  pub unicode : Unicode
  -- `_COMPILED_PATTERNS` as it stands after start-up
  pub patterns : List (List Item)
  -- not `EXECUTION_MODE=ssh` with no host or user
  pub is_configured : Bool
  -- `get_executor().execute(command)`
  pub execute : History → Text → RunResult
  -- `user_approve_fn`
  pub approve : History → ApprovalRequest → Bool

abbrev pub is_success : RunResult → Bool
is_success (finished out zero_code) = true
is_success failed = false

module _ (host : Host) where
  unfoldable pub run_command : Text → History → RunResult × History
  run_command command h =
      if is_command_allowed host.unicode host.patterns command
      then (if host.is_configured
          then (let r = host.execute h command in (r, command_run command r ∷ h))
          else (failed, h))
      else (failed, h)

  unfoldable pub run_action_command : Text → History → RunResult × History
  run_action_command command h =
      if is_action_command_allowed host.unicode command
      then (let r = host.execute h command in (r, action_run command r ∷ h))
      else (failed, h)

  unfoldable pub ask : ApprovalRequest → History → Bool × History
  ask request h = let answer = host.approve h request in (answer, asked request answer ∷ h)
