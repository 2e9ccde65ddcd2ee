-- ===== src/Control/Loop/Induction.antt =====
-- Induction over the actions of a plan.
use devops_agent.Prelude.{Bool, false, List, [], ◌∷◌, leb, ◌≡◌, Bool-cases, inl, inr}
use devops_agent.Control.Host.{Host, History}
use devops_agent.Control.Session.{PlannedAction, ControlState}
use devops_agent.Control.Recovery.{Flow, go_on, returned, raised}
use devops_agent.Control.Loop.{max_actions_per_run, run_action, or_continue, execute_action_flow}

module _ (host : Host) (verify_after : Bool) (P : ControlState → History → Type 0)
    (step : (a : PlannedAction) (s : ControlState) (h : History)
      → leb max_actions_per_run s.action_count ≡ false
      → P s h
      → P (run_action host verify_after a s h).1 (run_action host verify_after a s h).2) where
  or_continue-keeps :
      (now rest : Flow (Unit {0}))
      → P now.1 now.2
      → P rest.1 rest.2
      → P (or_continue now rest).1 (or_continue now rest).2
  unfolding or_continue
  or_continue-keeps (go_on _, s, h) rest p q = q
  or_continue-keeps (returned r, s, h) rest p q = p
  or_continue-keeps (raised, s, h) rest p q = p

  -- What each action keeps, where the budget allows one more, the whole flow keeps.
  pub execute_action_flow_induction :
      (plan : List PlannedAction) (s : ControlState) (h : History)
      → P s h
      → P
          (execute_action_flow host verify_after plan s h).1
          (execute_action_flow host verify_after plan s h).2
  unfolding execute_action_flow
  execute_action_flow_induction [] s h p = p
  execute_action_flow_induction (a ∷ plan) s h p =
      elim (Bool-cases (leb max_actions_per_run s.action_count)) [
        | inl full ↦ rw full p
        | inr room ↦
            let p' = step a s h room p in
            rw room (
              or_continue-keeps (run_action host verify_after a s h)
                (execute_action_flow host verify_after plan (run_action host verify_after a s h).1
                  (run_action host verify_after a s h).2)
                p'
                (execute_action_flow_induction plan (run_action host verify_after a s h).1
                  (run_action host verify_after a s h).2 p'))
      ]
