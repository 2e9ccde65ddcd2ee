-- ===== src/Control/Rollback.antt =====
-- The rollback engine (app/control/rollback.py).
use devops_agent.Prelude.{Bool, true, false, [], ◌∷◌, ◌++◌, if◌then◌else◌}
use devops_agent.Text.{Text, codes, text_eq}
use devops_agent.Control.State.{RiskLevel, low, is_low}
use devops_agent.Control.Host.{Host, is_success, History, run_command}

pub record RollbackPlan : Type 0 where
  pub available : Bool
  pub action_type : Text
  pub target : Text
  pub command : Text
  pub risk_level : RiskLevel

unfoldable pub create_rollback_plan : Text → Text → RollbackPlan
create_rollback_plan t target =
    if text_eq t (codes "restart_container")
    then record {
      available = true;
      action_type = codes "restart_container";
      target = target;
      command = codes "docker restart " ++ target;
      risk_level = low;
    }
    else (if text_eq t (codes "restart_service")
        then record {
          available = true;
          action_type = codes "restart_service";
          target = target;
          command = codes "systemctl restart " ++ target;
          risk_level = low;
        }
        else record {
          available = false;
          action_type = t;
          target = target;
          command = [];
          risk_level = low;
        })

-- `if not rollback_plan.command` and the run
unfoldable pub run_rollback : Host → Text → History → Bool × History
run_rollback host [] h = (false, h)
run_rollback host (c ∷ s) h = let (r, h') = run_command host (c ∷ s) h in (is_success r, h')

-- the `success` of the `RollbackResult`
unfoldable pub execute_rollback : Host → RollbackPlan → History → Bool × History
execute_rollback host plan h =
    if plan.available then run_rollback host plan.command h else (false, h)

unfoldable pub is_rollback_safe : RollbackPlan → Bool
is_rollback_safe plan = if plan.available then is_low plan.risk_level else false
