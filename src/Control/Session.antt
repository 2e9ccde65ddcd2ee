-- ===== src/Control/Session.antt =====
-- The state of one run of the control loop (app/control/state.py, `ControlState`) and its operations.
-- The texts of details and summaries are not modelled. An `ActionRecord` is shared between the list
-- and the flow: what the flow writes into it is written into the last record of the list.
use devops_agent.Prelude.{ℕ, Bool, Option, List, [], ◌∷◌, ◌++◌}
use devops_agent.Text.{Text}
use devops_agent.Control.State.{Phase, RiskLevel, ApprovalStatus, OutcomeStatus}
use devops_agent.Control.Actions.{ActionResult}
use devops_agent.Control.Verification.{VerificationStatus}

pub record PlannedAction : Type 0 where
  pub action_type : Text
  pub target : Text

pub data AuditAction : Type 0 where
  phase_transition action_recorded verification_added outcome_set : AuditAction

pub data TimelineEvent : Type 0 where
  risk_assessed action_blocked user_responded action_executed verification_skipped : TimelineEvent
  verification_complete rollback_plan_created rollback_executed : TimelineEvent

pub record ActionRecord : Type 0 where
  pub action_type : Text
  pub target : Text
  pub command : Text
  pub risk_level : RiskLevel
  pub approval_status : ApprovalStatus
  pub result : Option ActionResult
  pub verification : Option VerificationStatus
  pub rollback : Option Bool

-- The fields of `ControlState` that the flow reads or writes, and the incident's timeline.
pub record ControlState : Type 0 where
  pub current_phase : Phase
  pub phase_history : List Phase
  pub audit_trail : List (Phase × AuditAction)
  pub timeline : List TimelineEvent
  pub confidence : ℕ
  pub risk_level : RiskLevel
  pub approval_status : ApprovalStatus
  pub actions_attempted : List ActionRecord
  pub verification_results : List VerificationStatus
  pub rollback_results : List Bool
  pub final_outcome : OutcomeStatus
  pub action_count : ℕ

unfoldable pub audit : Phase → AuditAction → ControlState → ControlState
audit phase action s = record s { audit_trail = s.audit_trail ++ (phase, action) ∷ [] }

unfoldable pub transition_to : Phase → ControlState → ControlState
unfolding audit
transition_to phase s =
    audit phase phase_transition
      (record s { current_phase = phase; phase_history = s.phase_history ++ phase ∷ [] })

unfoldable pub set_outcome : OutcomeStatus → ControlState → ControlState
unfolding audit
set_outcome status s = audit Phase.record_outcome outcome_set (record s { final_outcome = status })

unfoldable pub add_action_record : ActionRecord → ControlState → ControlState
unfolding audit
add_action_record r s =
    audit s.current_phase action_recorded
      (record s { actions_attempted = s.actions_attempted ++ r ∷ [] })

unfoldable pub add_verification : VerificationStatus → ControlState → ControlState
unfolding audit
add_verification status s =
    audit s.current_phase verification_added
      (record s { verification_results = s.verification_results ++ status ∷ [] })

unfoldable pub add_event : TimelineEvent → ControlState → ControlState
add_event e s = record s { timeline = s.timeline ++ e ∷ [] }

unfoldable pub amend_last : (ActionRecord → ActionRecord) → List ActionRecord → List ActionRecord
amend_last f [] = []
amend_last f (r ∷ []) = f r ∷ []
amend_last f (r ∷ r' ∷ rs) = r ∷ amend_last f (r' ∷ rs)

-- a write to the record that was added last
unfoldable pub amend_record : (ActionRecord → ActionRecord) → ControlState → ControlState
unfolding amend_last
amend_record f s = record s { actions_attempted = amend_last f s.actions_attempted }
