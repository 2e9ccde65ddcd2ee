-- ===== src/Control/Loop.antt =====
-- The action flow of the control loop (app/control/controller.py, `_execute_action_flow`): risk,
-- approval, execution, verification and rollback of each planned action.
pub mod Induction
pub mod Reads
pub mod Keeps
pub mod Plan
pub mod Guard
pub mod Counter
pub mod Ends
pub mod Budget
pub mod Approved
use devops_agent.Prelude.{
  ℕ, zero, suc, ◌+◌, Bool, true, false, not, Option, none, some, List, [], ◌∷◌, ◌++◌, leb,
  if◌then◌else◌, ◌≡◌, Bool-cases, inl, inr,
}
use devops_agent.Text.{Text, codes}
use devops_agent.Control.State.{
  Phase, RiskLevel, ApprovalStatus, OutcomeStatus, pending, rolled_back,
}
use devops_agent.Control.Risk.{RiskAssessment, RiskContext, assess_risk}
use devops_agent.Control.Permissions.{
  ApprovalRequest, Decision, evaluate_approval, simulate_user_approval,
}
use devops_agent.Control.Host.{Host, History, ask}
use devops_agent.Control.Actions.{ActionResult, is_done, build_action_command, execute_action}
use devops_agent.Control.Verification.{VerificationStatus, verify_action}
use devops_agent.Control.Rollback.{
  RollbackPlan, create_rollback_plan, execute_rollback, is_rollback_safe,
}
use devops_agent.Control.Session.{
  PlannedAction, AuditAction, TimelineEvent, risk_assessed, action_blocked, user_responded,
  action_executed, verification_skipped, verification_complete, rollback_plan_created,
  rollback_executed, ActionRecord, ControlState, transition_to, set_outcome, add_action_record,
  add_verification, add_event, amend_record,
}
use devops_agent.Control.Recovery.{
  after_rollback_verification, verify_rollback, after_rollback, roll_back_by, roll_back, verified,
  after_verification, after_success, conclude, Outcome, Flow, go_on, returned, raised,
}

abbrev pub max_actions_per_run : ℕ
max_actions_per_run = 3

-- `build_action_command(…) or ""`
abbrev pub or_empty : Option Text → Text
or_empty none = []
or_empty (some c) = c

-- what one action's flow builds before it asks
pub record Proposal : Type 0 where
  pub action : PlannedAction
  pub risk : RiskAssessment
  pub request : ApprovalRequest

unfoldable pub propose : Host → PlannedAction → ControlState → Proposal
propose host a s =
    let risk =
      assess_risk host.unicode a.action_type a.target
        (record { confidence = s.confidence; affected_dependencies = 0 }) in
    record {
      action = a;
      risk = risk;
      request = record {
        action_type = a.action_type;
        target = a.target;
        command = or_empty (build_action_command host.unicode a.action_type a.target);
        risk_level = risk.risk_level;
        reversible = risk.reversible;
      };
    }

-- `state.risk_level = …` up to the assignment of the approval status
unfoldable pub assessed : Proposal → ControlState → ControlState
unfolding add_event transition_to
assessed p s =
    let s1 = record s { risk_level = p.risk.risk_level } in
    let s2 = transition_to Phase.approval (add_event risk_assessed s1) in
    record s2 { approval_status = (evaluate_approval p.request).status }

unfoldable pub after_answer : Bool → ControlState × History → Flow (Unit {0})
unfolding add_event set_outcome simulate_user_approval
after_answer answer (s, h) =
    let s1 =
      add_event user_responded
        (record s { approval_status = (simulate_user_approval answer (codes "user")).status }) in
    if answer then (go_on tt, s1, h) else (returned none, set_outcome OutcomeStatus.blocked s1, h)

-- the branches on the approval status
unfoldable pub approval_gate :
    Host → ApprovalRequest → ApprovalStatus → ControlState → History → Flow (Unit {0})
unfolding ask add_event set_outcome
approval_gate host request ApprovalStatus.blocked s h =
    (returned none, set_outcome OutcomeStatus.blocked (add_event action_blocked s), h)
approval_gate host request pending s h =
    let (answer, h') = ask host request h in after_answer answer (s, h')
approval_gate host request _ s h = (go_on tt, s, h)

unfoldable pub started : Proposal → ControlState → ControlState
unfolding transition_to add_action_record
started p s =
    add_action_record
      (record {
        action_type = p.action.action_type;
        target = p.action.target;
        command = p.request.command;
        risk_level = p.risk.risk_level;
        approval_status = s.approval_status;
        result = none;
        verification = none;
        rollback = none;
      })
      (transition_to Phase.execute s)

unfoldable pub recorded : ActionResult → ControlState → ControlState
unfolding amend_record add_event
recorded result s = add_event action_executed (
    amend_record (λ r. record r { result = some result })
      (record s { action_count = s.action_count + 1 }))

unfoldable pub perform : Host → Bool → Proposal → ControlState → History → Flow (Unit {0})
perform host verify_after p s h =
    let (result, h') = execute_action host p.action.action_type p.action.target h in
    conclude host verify_after p.action result (recorded result (started p s)) h'

unfoldable pub then_perform : Host → Bool → Proposal → Flow (Unit {0}) → Flow (Unit {0})
then_perform host verify_after p (go_on _, s, h) = perform host verify_after p s h
then_perform host verify_after p (returned r, s, h) = (returned r, s, h)
then_perform host verify_after p (raised, s, h) = (raised, s, h)

-- the body of the loop for one action
unfoldable pub run_action : Host → Bool → PlannedAction → ControlState → History → Flow (Unit {0})
run_action host verify_after a s h =
    let p = propose host a s in
    then_perform host verify_after p
      (approval_gate host p.request (evaluate_approval p.request).status (assessed p s) h)

-- the loop goes on to the next action only if this one did
unfoldable pub or_continue : Flow (Unit {0}) → Flow (Unit {0}) → Flow (Unit {0})
or_continue (go_on _, s, h) rest = rest
or_continue (returned r, s, h) rest = (returned r, s, h)
or_continue (raised, s, h) rest = (raised, s, h)

-- `_execute_action_flow`; a `break` and the end of the loop are its last `return None`
unfoldable pub execute_action_flow :
    Host → Bool → List PlannedAction → ControlState → History → Flow (Unit {0})
unfolding or_continue
execute_action_flow host verify_after [] s h = (returned none, s, h)
execute_action_flow host verify_after (a ∷ plan) s h =
    let now = run_action host verify_after a s h in
    let rest = execute_action_flow host verify_after plan now.1 now.2 in
    if leb max_actions_per_run s.action_count then (returned none, s, h) else or_continue now rest
