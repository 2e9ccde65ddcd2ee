-- ===== src/Control/Loop/Ends.antt =====
-- With verification the flow does not go on behind its first action; without it nothing is rolled back.
use devops_agent.Prelude.{
  ◌≤◌, ◌≡◌, refl, Bool, true, false, Option, none, some, ◌∷◌, Bool-cases, if◌then◌else◌, inl, inr,
  arith,
}
use devops_agent.Text.{Text}
use devops_agent.Whitelist.{is_action_command_allowed}
use devops_agent.Control.State.{ApprovalStatus, OutcomeStatus, pending}
use devops_agent.Control.Host.{Host, History, asked, run_action_command}
use devops_agent.Control.Actions.{
  ActionResult, is_done, send, execute_action, is_action_executable, build_action_command,
}
use devops_agent.Control.Verification.{VerificationStatus}
use devops_agent.Control.Rollback.{RollbackPlan, is_rollback_safe, execute_rollback}
use devops_agent.Control.Session.{
  PlannedAction, ControlState, add_event, set_outcome, rollback_plan_created,
}
use devops_agent.Control.Recovery.{
  Flow, go_on, returned, raised, verify_rollback, after_rollback, roll_back_by, roll_back, verified,
  after_verification, after_success, conclude,
}
use devops_agent.Control.Loop.{
  Proposal, propose, after_answer, approval_gate, perform, then_perform, run_action,
}
use devops_agent.Control.Loop.Guard.{actions_sent, mutations}

-- it does not go on
abbrev pub Ends : Flow (Unit {0}) → Type 0
Ends (go_on _, s, h) = ⊥
Ends (returned r, s, h) = Unit
Ends (raised, s, h) = Unit

either : (b : Bool) (x y : Flow (Unit {0})) → Ends x → Ends y → Ends (if b then x else y)
either true x y p q = p
either false x y p q = q

module _ (host : Host) (a : PlannedAction) (result : ActionResult) where
  verify_rollback-Ends :
      (x : Option VerificationStatus × History) (s : ControlState)
      → Ends (verify_rollback result x s)
  unfolding verify_rollback
  verify_rollback-Ends (none, h) s = tt
  verify_rollback-Ends (some status, h) s = tt

  after_rollback-Ends :
      (worked : Bool) (s : ControlState) (h : History)
      → Ends (after_rollback host a result worked s h)
  unfolding after_rollback
  after_rollback-Ends true s h = verify_rollback-Ends _ _
  after_rollback-Ends false s h = tt

  roll_back_by-Ends :
      (plan : RollbackPlan) (s : ControlState) (h : History)
      → Ends (roll_back_by host a result plan s h)
  unfolding roll_back_by
  roll_back_by-Ends plan s h =
      either plan.available
        (if is_rollback_safe plan then ran else (returned (some result), unsafe, h))
        (returned (some result), set_outcome OutcomeStatus.failed s, h)
        (either (is_rollback_safe plan) ran (returned (some result), unsafe, h)
          (after_rollback-Ends _ _ _) tt)
        tt
    where
      unsafe : ControlState
      unsafe = set_outcome OutcomeStatus.failed (add_event rollback_plan_created s)

      ran : Flow (Unit {0})
      ran =
          after_rollback host a result (execute_rollback host plan h).0
            (add_event rollback_plan_created s) (execute_rollback host plan h).1

  verified-Ends :
      (status : VerificationStatus) (s : ControlState) (h : History)
      → Ends (verified host a result status s h)
  unfolding verified roll_back
  verified-Ends VerificationStatus.success s h = tt
  verified-Ends VerificationStatus.unknown s h = tt
  verified-Ends VerificationStatus.failed s h = roll_back_by-Ends _ _ h
  verified-Ends VerificationStatus.degraded s h = roll_back_by-Ends _ _ h

  after_verification-Ends :
      (o : Option VerificationStatus) (s : ControlState) (h : History)
      → Ends (after_verification host a result o s h)
  unfolding after_verification
  after_verification-Ends none s h = tt
  after_verification-Ends (some status) s h = verified-Ends status _ h

  conclude-Ends : (s : ControlState) (h : History) → Ends (conclude host true a result s h)
  unfolding conclude after_success
  conclude-Ends s h = elim (Bool-cases (is_done result)) [
    | inl finished ↦ rw finished (after_verification-Ends _ _ _)
    | inr undone ↦ rw undone tt
  ]

  -- without verification nothing is called behind the execution
  conclude-unverified : (s : ControlState) (h : History) → (conclude host false a result s h).2 ≡ h
  unfolding conclude after_success
  conclude-unverified s h = elim (Bool-cases (is_done result)) [
    | inl finished ↦ rw finished refl
    | inr undone ↦ rw undone refl
  ]

module _ (host : Host) where
  answered-Ends :
      (p : Proposal) (answer : Bool) (s : ControlState) (h : History)
      → Ends (then_perform host true p (after_answer answer (s, h)))
  unfolding then_perform after_answer perform
  answered-Ends p true s h = conclude-Ends host p.action _ _ _
  answered-Ends p false s h = tt

  gated-Ends :
      (p : Proposal) (status : ApprovalStatus) (s : ControlState) (h : History)
      → Ends (then_perform host true p (approval_gate host p.request status s h))
  unfolding then_perform approval_gate perform
  gated-Ends p ApprovalStatus.blocked s h = tt
  gated-Ends p pending s h = answered-Ends p (host.approve h p.request) s _
  gated-Ends p _ s h = conclude-Ends host p.action _ _ _

  -- With verification no action goes on.
  pub run_action-Ends :
      (a : PlannedAction) (s : ControlState) (h : History) → Ends (run_action host true a s h)
  unfolding run_action
  run_action-Ends a s h = gated-Ends (propose host a s) _ _ _

  -- the mutations are the commands of the actions
  abbrev pub OnlyActions : History → Type 0
  OnlyActions h = mutations host h ≤ actions_sent h

  send-OnlyActions : (o : Option Text) (h : History) → OnlyActions h → OnlyActions (send host o h).1
  unfolding send run_action_command
  send-OnlyActions none h only = only
  send-OnlyActions (some c) h only = elim (Bool-cases (is_action_command_allowed host.unicode c)) [
    | inl listed ↦ rw listed (omega (arith, only))
    | inr unlisted ↦ rw unlisted only
  ]

  perform-OnlyActions :
      (p : Proposal) (s : ControlState) (h : History)
      → OnlyActions h
      → OnlyActions (perform host false p s h).2
  unfolding perform execute_action
  perform-OnlyActions p s h only = elim (Bool-cases (is_action_executable p.action.action_type)) [
    | inl listed ↦
        rw (conclude-unverified, listed)
          (send-OnlyActions (build_action_command host.unicode p.action.action_type p.action.target)
            h only)
    | inr unlisted ↦ rw (conclude-unverified, unlisted) only
  ]

  answered-OnlyActions :
      (p : Proposal) (answer : Bool) (s : ControlState) (h : History)
      → OnlyActions h
      → OnlyActions (then_perform host false p (after_answer answer (s, h))).2
  unfolding then_perform after_answer
  answered-OnlyActions p true s h only = perform-OnlyActions p _ h only
  answered-OnlyActions p false s h only = only

  gated-OnlyActions :
      (p : Proposal) (status : ApprovalStatus) (s : ControlState) (h : History)
      → OnlyActions h
      → OnlyActions (then_perform host false p (approval_gate host p.request status s h)).2
  unfolding then_perform approval_gate
  gated-OnlyActions p ApprovalStatus.blocked s h only = only
  gated-OnlyActions p pending s h only =
      answered-OnlyActions p (host.approve h p.request) s
        (asked p.request (host.approve h p.request) ∷ h) only
  gated-OnlyActions p _ s h only = perform-OnlyActions p s h only

  -- Without verification the flow of an action runs no other mutation than the action's.
  pub run_action-OnlyActions :
      (a : PlannedAction) (s : ControlState) (h : History)
      → OnlyActions h
      → OnlyActions (run_action host false a s h).2
  unfolding run_action
  run_action-OnlyActions a s h only = gated-OnlyActions (propose host a s) _ _ h only
