-- ===== src/Control/Permissions.antt =====
-- The approval decision (app/control/permissions.py). The prompt and the reasons in prose are not
-- modelled.
use devops_agent.Prelude.{◌≡◌, Bool, true, false, ◌⊎◌, arith, if◌then◌else◌}
use devops_agent.Text.{Text, is_in}
use devops_agent.Control.State.{
  RiskLevel, low, medium, high, critical, ApprovalStatus, pending, approved, denied, auto_approved,
}
use devops_agent.Control.Risk.{lifecycle_actions}

pub data Requirement : Type 0 where
  auto ask ask_explain block : Requirement

pub record ApprovalRequest : Type 0 where
  pub action_type : Text
  pub target : Text
  pub command : Text
  pub risk_level : RiskLevel
  pub reversible : Bool

unfoldable pub determine_approval_requirement : RiskLevel → Requirement
determine_approval_requirement low = auto
determine_approval_requirement medium = ask
determine_approval_requirement high = ask_explain
determine_approval_requirement critical = block

pub record Decision : Type 0 where
  pub status : ApprovalStatus
  pub requirement : Requirement

unfoldable pub decide : Requirement → Decision
decide auto = record { status = auto_approved; requirement = auto }
decide block = record { status = ApprovalStatus.blocked; requirement = block }
decide ask = record { status = pending; requirement = ask }
decide ask_explain = record { status = pending; requirement = ask_explain }

-- the set of writes is written out again in the source; it is that of `rollback_available`
unfoldable pub evaluate_approval : ApprovalRequest → Decision
unfolding decide determine_approval_requirement
evaluate_approval request = decide (
    if is_in request.action_type lifecycle_actions
    then ask
    else determine_approval_requirement request.risk_level)

pub record UserDecision : Type 0 where
  pub status : ApprovalStatus
  pub approved_by : Text

unfoldable pub simulate_user_approval : Bool → Text → UserDecision
simulate_user_approval true approver = record { status = approved; approved_by = approver }
simulate_user_approval false approver = record { status = denied; approved_by = approver }

-- A write to the infrastructure is never approved without the operator, and never blocked: whatever
-- its risk, also a critical one, the operator is asked. Any other action is approved without the
-- operator exactly when its risk is low, and blocked exactly when it is critical.
pub evaluate_approval_cases :
    (request : ApprovalRequest)
    → ((is_in request.action_type lifecycle_actions ≡ true)
        × (evaluate_approval request ≡ record { status = pending; requirement = ask }))
      ⊎ ((is_in request.action_type lifecycle_actions ≡ false)
          × ((evaluate_approval request).status ≡ auto_approved → request.risk_level ≡ low)
          × (request.risk_level ≡ low → (evaluate_approval request).status ≡ auto_approved)
          × ((evaluate_approval request).status ≡ ApprovalStatus.blocked
              → request.risk_level ≡ critical)
          × (request.risk_level ≡ critical
              → (evaluate_approval request).status ≡ ApprovalStatus.blocked))
unfolding evaluate_approval
evaluate_approval_cases request = ground arith
