-- ===== src/Control/Loop/Counter.antt =====
-- The counter of actions behind an execution.
use devops_agent.Prelude.{
  ℕ, ◌≡◌, refl, Bool, true, false, Option, none, some, Bool-cases, inl, inr, arith,
}
use devops_agent.Control.Host.{Host, History}
use devops_agent.Control.Actions.{ActionResult, is_done}
use devops_agent.Control.Verification.{VerificationStatus}
use devops_agent.Control.Rollback.{RollbackPlan, execute_rollback}
use devops_agent.Control.Session.{PlannedAction, ControlState, add_event, rollback_plan_created}
use devops_agent.Control.Recovery.{
  Flow, after_rollback_verification, verify_rollback, after_rollback, roll_back_by, roll_back,
  verified, after_verification, after_success, conclude,
}

-- the counter is left alone behind the execution
module _ (host : Host) (a : PlannedAction) (result : ActionResult) where
  abbrev Count : ℕ → Flow (Unit {0}) → Type 0
  Count n x = x.1.action_count ≡ n

  verify_rollback-Count :
      (x : Option VerificationStatus × History) (s : ControlState)
      → Count s.action_count (verify_rollback result x s)
  unfolding verify_rollback after_rollback_verification
  verify_rollback-Count (none, h) s = refl
  verify_rollback-Count (some VerificationStatus.success, h) s = refl
  verify_rollback-Count (some _, h) s = refl

  after_rollback-Count :
      (worked : Bool) (s : ControlState) (h : History)
      → Count s.action_count (after_rollback host a result worked s h)
  unfolding after_rollback
  after_rollback-Count true s h = verify_rollback-Count _ _
  after_rollback-Count false s h = refl

  roll_back_by-Count :
      (plan : RollbackPlan) (s : ControlState) (h : History)
      → Count s.action_count (roll_back_by host a result plan s h)
  unfolding roll_back_by
  roll_back_by-Count plan s h = ground (
    arith,
    after_rollback-Count (execute_rollback host plan h).0 (add_event rollback_plan_created s)
        (execute_rollback host plan h).1,
  )

  roll_back-Count :
      (s : ControlState) (h : History) → Count s.action_count (roll_back host a result s h)
  unfolding roll_back
  roll_back-Count s h = roll_back_by-Count _ _ h

  verified-Count :
      (status : VerificationStatus) (s : ControlState) (h : History)
      → Count s.action_count (verified host a result status s h)
  unfolding verified
  verified-Count VerificationStatus.success s h = refl
  verified-Count VerificationStatus.unknown s h = refl
  verified-Count VerificationStatus.failed s h = roll_back-Count s h
  verified-Count VerificationStatus.degraded s h = roll_back-Count s h

  after_verification-Count :
      (o : Option VerificationStatus) (s : ControlState) (h : History)
      → Count s.action_count (after_verification host a result o s h)
  unfolding after_verification
  after_verification-Count none s h = refl
  after_verification-Count (some status) s h = verified-Count status _ h

  pub conclude-Count :
      (verify_after : Bool) (s : ControlState) (h : History)
      → Count s.action_count (conclude host verify_after a result s h)
  unfolding conclude after_success
  conclude-Count true s h = elim (Bool-cases (is_done result)) [
    | inl finished ↦ rw finished (after_verification-Count _ _ _)
    | inr undone ↦ rw undone
  ]
  conclude-Count false s h = ground arith
