-- ===== src/Control/Recovery.antt =====
-- What follows the execution of an action (app/control/controller.py, `_execute_action_flow`):
-- verification, and rollback where it fails.
use devops_agent.Prelude.{Bool, true, false, Option, none, some, [], ◌∷◌, ◌++◌, if◌then◌else◌}
use devops_agent.Control.State.{Phase, OutcomeStatus, rolled_back}
use devops_agent.Control.Host.{Host, History}
use devops_agent.Control.Actions.{ActionResult, is_done}
use devops_agent.Control.Verification.{VerificationStatus, verify_action}
use devops_agent.Control.Rollback.{
  RollbackPlan, create_rollback_plan, execute_rollback, is_rollback_safe,
}
use devops_agent.Control.Session.{
  PlannedAction, verification_skipped, verification_complete, rollback_plan_created,
  rollback_executed, ControlState, transition_to, set_outcome, add_verification, add_event,
  amend_record,
}

-- How a part of the flow ends: it goes on, `return`s, or an error is raised out of it.
pub data Outcome (A : Type 0) : Type 0 where
  go_on : A → Outcome A
  returned : Option ActionResult → Outcome A
  raised : Outcome A

abbrev pub Flow : Type 0 → Type 0
Flow A = Outcome A × ControlState × History

-- the outcome behind a rollback that ran, from the second verification
unfoldable pub after_rollback_verification : VerificationStatus → ControlState → ControlState
unfolding set_outcome
after_rollback_verification VerificationStatus.success s = set_outcome rolled_back s
after_rollback_verification _ s = set_outcome OutcomeStatus.failed s

unfoldable pub verify_rollback :
    ActionResult → Option VerificationStatus × History → ControlState → Flow (Unit {0})
verify_rollback result (none, h) s = (raised, s, h)
verify_rollback result (some status, h) s =
    (returned (some result), after_rollback_verification status s, h)

unfoldable pub after_rollback :
    Host → PlannedAction → ActionResult → Bool → ControlState → History → Flow (Unit {0})
unfolding amend_record add_event set_outcome
after_rollback host a result worked s h =
    let s1 =
      amend_record (λ r. record r { rollback = some worked })
        (record s { rollback_results = s.rollback_results ++ worked ∷ [] }) in
    let s2 = add_event rollback_executed s1 in
    if worked
    then verify_rollback result (verify_action host a.action_type a.target h) s2
    else (returned (some result), set_outcome OutcomeStatus.failed s2, h)

unfoldable pub roll_back_by :
    Host → PlannedAction → ActionResult → RollbackPlan → ControlState → History → Flow (Unit {0})
unfolding add_event set_outcome
roll_back_by host a result plan s h =
    if plan.available
    then (let s1 = add_event rollback_plan_created s in
        if is_rollback_safe plan
        then (let (worked, h') = execute_rollback host plan h in
            after_rollback host a result worked s1 h')
        else (returned (some result), set_outcome OutcomeStatus.failed s1, h))
    else (returned (some result), set_outcome OutcomeStatus.failed s, h)

unfoldable pub roll_back :
    Host → PlannedAction → ActionResult → ControlState → History → Flow (Unit {0})
unfolding transition_to
roll_back host a result s h =
    roll_back_by host a result (create_rollback_plan a.action_type a.target)
      (transition_to Phase.rollback s) h

unfoldable pub verified :
    Host
    → PlannedAction
    → ActionResult
    → VerificationStatus
    → ControlState
    → History
    → Flow (Unit {0})
unfolding set_outcome
verified host a result VerificationStatus.success s h =
    (returned (some result), set_outcome OutcomeStatus.success s, h)
verified host a result VerificationStatus.unknown s h =
    (returned (some result), set_outcome OutcomeStatus.unknown s, h)
verified host a result _ s h = roll_back host a result s h

unfoldable pub after_verification :
    Host
    → PlannedAction
    → ActionResult
    → Option VerificationStatus
    → ControlState
    → History
    → Flow (Unit {0})
unfolding amend_record add_verification add_event
after_verification host a result none s h = (raised, s, h)
after_verification host a result (some status) s h =
    let s1 =
      add_event verification_complete
        (add_verification status (amend_record (λ r. record r { verification = some status }) s)) in
    verified host a result status s1 h

-- behind a successful execution; `go_on` is `continue`
unfoldable pub after_success :
    Host → Bool → PlannedAction → ActionResult → ControlState → History → Flow (Unit {0})
unfolding set_outcome add_event transition_to
after_success host true a result s h =
    let (status, h') = verify_action host a.action_type a.target h in
    after_verification host a result status (transition_to Phase.verify s) h'
after_success host false a result s h =
    (go_on tt, add_event verification_skipped (set_outcome OutcomeStatus.success s), h)

unfoldable pub conclude :
    Host → Bool → PlannedAction → ActionResult → ControlState → History → Flow (Unit {0})
unfolding set_outcome
conclude host verify_after a result s h =
    if is_done result
    then after_success host verify_after a result s h
    else (returned (some result), set_outcome OutcomeStatus.failed s, h)
