-- ===== src/Control/Loop/Keeps.antt =====
-- What holds of the history through the part of the flow behind the execution of an action: a
-- verification adds commands that are no mutations, and a rollback adds one command, its plan's.
use devops_agent.Prelude.{
  Bool, true, false, Option, none, some, [], ◌∷◌, ◌≡◌, arith, Bool-cases, inl, inr,
}
use devops_agent.Text.{Text}
use devops_agent.Whitelist.{is_action_command_allowed}
use devops_agent.Control.Host.{Host, RunResult, History, command_run, run_command}
use devops_agent.Control.Actions.{ActionResult, is_done}
use devops_agent.Control.Verification.{VerificationStatus}
use devops_agent.Control.Rollback.{
  RollbackPlan, create_rollback_plan, run_rollback, execute_rollback,
}
use devops_agent.Control.Session.{PlannedAction, ControlState, add_event, rollback_plan_created}
use devops_agent.Control.Recovery.{
  verify_rollback, after_rollback, roll_back_by, roll_back, verified, after_verification,
  after_success, conclude,
}
use devops_agent.Control.Loop.Reads.{verify_action-keeps}

-- `P` holds up to the rollback, `Q` from there on, and commands that are no mutations keep both.
module _ (host : Host) (a : PlannedAction) (P Q : History → Type 0)
    (P_closed : (c : Text) (r : RunResult) (h : History)
      → is_action_command_allowed host.unicode c ≡ false
      → P h
      → P (command_run c r ∷ h))
    (Q_closed : (c : Text) (r : RunResult) (h : History)
      → is_action_command_allowed host.unicode c ≡ false
      → Q h
      → Q (command_run c r ∷ h))
    (widen : (h : History) → P h → Q h)
    (rolled : (r : RunResult) (h : History)
      → (create_rollback_plan a.action_type a.target).available ≡ true
      → P h
      → Q (command_run (create_rollback_plan a.action_type a.target).command r ∷ h))
    (result : ActionResult) where
  Rolls : RollbackPlan → Type 0
  Rolls plan =
      (r : RunResult) (h : History)
      → plan.available ≡ true
      → P h
      → Q (command_run plan.command r ∷ h)

  run_command-turns :
      (c : Text) (h : History)
      → ((r : RunResult) → Q (command_run c r ∷ h))
      → P h
      → Q (run_command host c h).1
  unfolding run_command
  run_command-turns c h roll p = ground (arith, roll (host.execute h c), widen h p)

  run_rollback-turns :
      (c : Text) (h : History)
      → ((r : RunResult) → Q (command_run c r ∷ h))
      → P h
      → Q (run_rollback host c h).1
  unfolding run_rollback
  run_rollback-turns [] h roll p = widen h p
  run_rollback-turns (x ∷ c) h roll p = run_command-turns (x ∷ c) h roll p

  execute_rollback-turns :
      (plan : RollbackPlan) (h : History) → Rolls plan → P h → Q (execute_rollback host plan h).1
  unfolding execute_rollback Rolls
  execute_rollback-turns plan h roll p = elim (Bool-cases plan.available) [
    | inl can ↦ rw can (run_rollback-turns plan.command h (λ r. roll r h can p) p)
    | inr cannot ↦ rw cannot (widen h p)
  ]

  verify_rollback-keeps :
      (x : Option VerificationStatus × History) (s : ControlState)
      → Q x.1
      → Q (verify_rollback result x s).2
  unfolding verify_rollback
  verify_rollback-keeps (none, h) s q = q
  verify_rollback-keeps (some status, h) s q = q

  after_rollback-keeps :
      (worked : Bool) (s : ControlState) (h : History)
      → Q h
      → Q (after_rollback host a result worked s h).2
  unfolding after_rollback
  after_rollback-keeps true s h q =
      verify_rollback-keeps _ _ (verify_action-keeps host Q Q_closed a.action_type a.target h q)
  after_rollback-keeps false s h q = q

  roll_back_by-turns :
      (plan : RollbackPlan) (s : ControlState) (h : History)
      → Rolls plan
      → P h
      → Q (roll_back_by host a result plan s h).2
  unfolding roll_back_by
  roll_back_by-turns plan s h roll p = ground (
    arith,
    widen h p,
    after_rollback-keeps (execute_rollback host plan h).0 (add_event rollback_plan_created s)
        (execute_rollback host plan h).1 (execute_rollback-turns plan h roll p),
  )

  roll_back-turns : (s : ControlState) (h : History) → P h → Q (roll_back host a result s h).2
  unfolding roll_back Rolls
  roll_back-turns s h p = roll_back_by-turns _ _ h rolled p

  verified-turns :
      (status : VerificationStatus) (s : ControlState) (h : History)
      → P h
      → Q (verified host a result status s h).2
  unfolding verified
  verified-turns VerificationStatus.success s h p = widen h p
  verified-turns VerificationStatus.unknown s h p = widen h p
  verified-turns VerificationStatus.failed s h p = roll_back-turns s h p
  verified-turns VerificationStatus.degraded s h p = roll_back-turns s h p

  after_verification-turns :
      (o : Option VerificationStatus) (s : ControlState) (h : History)
      → P h
      → Q (after_verification host a result o s h).2
  unfolding after_verification
  after_verification-turns none s h p = widen h p
  after_verification-turns (some status) s h p = verified-turns status _ h p

  after_success-turns :
      (verify_after : Bool) (s : ControlState) (h : History)
      → P h
      → Q (after_success host verify_after a result s h).2
  unfolding after_success
  after_success-turns true s h p =
      after_verification-turns _ _ _
        (verify_action-keeps host P P_closed a.action_type a.target h p)
  after_success-turns false s h p = widen h p

  -- From `Q` behind an action that was not done, and `P` behind one that was, `Q` holds at the end of
  -- its flow.
  pub conclude-turns :
      (verify_after : Bool) (s : ControlState) (h : History)
      → Q h
      → (is_done result ≡ true → P h)
      → Q (conclude host verify_after a result s h).2
  unfolding conclude
  conclude-turns verify_after s h q p = elim (Bool-cases (is_done result)) [
    | inl finished ↦ rw finished (after_success-turns verify_after s h (p finished))
    | inr undone ↦ rw undone q
  ]
