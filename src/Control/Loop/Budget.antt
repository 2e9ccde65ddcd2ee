-- ===== src/Control/Loop/Budget.antt =====
-- How many actions_sent one run of the flow can send.
use devops_agent.Prelude.{
  leb, ℕ, ◌+◌, ◌≤◌, ◌<◌, Bool, true, false, Option, none, some, List, [], ◌∷◌, ◌*◌, Bool-cases, inl,
  inr, arith,
}
use devops_agent.Text.{Text}
use devops_agent.Whitelist.{is_action_command_allowed}
use devops_agent.Control.State.{ApprovalStatus, pending}
use devops_agent.Control.Host.{Host, History, asked, run_action_command}
use devops_agent.Control.Actions.{
  ActionResult, send, execute_action, is_action_executable, build_action_command,
}
use devops_agent.Control.Session.{PlannedAction, ControlState}
use devops_agent.Control.Recovery.{Flow, go_on, returned, raised, conclude}
use devops_agent.Control.Loop.{
  max_actions_per_run, Proposal, propose, assessed, started, recorded, after_answer, approval_gate,
  perform, then_perform, run_action, or_continue, execute_action_flow,
}
use devops_agent.Control.Loop.Counter.{conclude-Count}
use devops_agent.Control.Loop.Ends.{Ends, run_action-Ends, OnlyActions, run_action-OnlyActions}
use devops_agent.Control.Loop.Induction.{execute_action_flow_induction}
use devops_agent.Control.Loop.Guard.{actions_sent, mutations, Guarded-twice}
use devops_agent.Control.Loop.Approved.{execute_action_flow-Guarded}
use devops_agent.Control.Loop.Keeps.{conclude-turns}

-- what an action may add, from the state and history before it to those after it
abbrev Spends : ControlState → History → Flow (Unit {0}) → Type 0
Spends s h x =
    (actions_sent x.2 + s.action_count ≤ actions_sent h + x.1.action_count)
    × (s.action_count ≤ x.1.action_count)
    × (x.1.action_count ≤ s.action_count + 1)

module _ (host : Host) where
  send-actions_sent :
      (o : Option Text) (h : History) → actions_sent (send host o h).1 ≤ actions_sent h + 1
  unfolding send run_action_command
  send-actions_sent none h = omega arith
  send-actions_sent (some c) h = elim (Bool-cases (is_action_command_allowed host.unicode c)) [
    | inl listed ↦ rw listed (omega arith)
    | inr unlisted ↦ rw unlisted (omega arith)
  ]

  execute_action-actions_sent :
      (t target : Text) (h : History)
      → actions_sent (execute_action host t target h).1 ≤ actions_sent h + 1
  unfolding execute_action
  execute_action-actions_sent t target h = elim (Bool-cases (is_action_executable t)) [
    | inl listed ↦ rw listed (send-actions_sent (build_action_command host.unicode t target) h)
    | inr unlisted ↦ rw unlisted (omega arith)
  ]

  conclude-actions_sent :
      (verify_after : Bool) (a : PlannedAction) (result : ActionResult) (s : ControlState)
      (h : History) (n : ℕ)
      → actions_sent h ≤ n
      → actions_sent (conclude host verify_after a result s h).2 ≤ n
  conclude-actions_sent verify_after a result s h n few =
      conclude-turns host a (λ h'. actions_sent h' ≤ n) (λ h'. actions_sent h' ≤ n)
        (λ c r h' reads p. p) (λ c r h' reads p. p) (λ h' p. p) (λ r h' can p. p) result
        verify_after s h few (λ finished. few)

  perform-Spends :
      (verify_after : Bool) (p : Proposal) (s : ControlState) (h : History)
      → Spends s h (perform host verify_after p s h)
  unfolding perform started recorded
  perform-Spends verify_after p s h =
      let a = p.action in
      let x = execute_action host a.action_type a.target h in
      let s' = recorded x.0 (started p s) in
      omega (
        arith,
        conclude-Count host a x.0 verify_after s' x.1,
        conclude-actions_sent verify_after a x.0 s' x.1 (actions_sent h + 1)
            (execute_action-actions_sent a.action_type a.target h),
      )

  answered-Spends :
      (verify_after : Bool) (p : Proposal) (answer : Bool) (s : ControlState) (h : History)
      → Spends s h
          (then_perform host verify_after p (after_answer answer (s, asked p.request answer ∷ h)))
  unfolding then_perform after_answer
  answered-Spends verify_after p true s h =
      perform-Spends verify_after p _ (asked p.request true ∷ h)
  answered-Spends verify_after p false s h = omega arith

  gated-Spends :
      (verify_after : Bool) (p : Proposal) (status : ApprovalStatus) (s : ControlState)
      (h : History)
      → Spends s h (then_perform host verify_after p (approval_gate host p.request status s h))
  unfolding approval_gate then_perform
  gated-Spends verify_after p ApprovalStatus.blocked s h = omega arith
  gated-Spends verify_after p pending s h =
      answered-Spends verify_after p (host.approve h p.request) s h
  gated-Spends verify_after p _ s h = perform-Spends verify_after p s h

  run_action-Spends :
      (verify_after : Bool) (a : PlannedAction) (s : ControlState) (h : History)
      → Spends s h (run_action host verify_after a s h)
  unfolding run_action assessed
  run_action-Spends verify_after a s h = gated-Spends verify_after (propose host a s) _ _ h

  counted :
      (verify_after : Bool) (plan : List PlannedAction) (s : ControlState) (h : History)
      → s.action_count ≤ max_actions_per_run
      → let x = execute_action_flow host verify_after plan s h in
        (actions_sent x.2 + s.action_count ≤ actions_sent h + x.1.action_count)
        × (x.1.action_count ≤ max_actions_per_run)
  counted verify_after plan s h small =
      execute_action_flow_induction host verify_after
        (λ s' h'.
          (actions_sent h' + s.action_count ≤ actions_sent h + s'.action_count)
          × (s'.action_count ≤ max_actions_per_run))
        (λ a s' h' room p.
          let spends = run_action-Spends verify_after a s' h' in
          let left : s'.action_count < max_actions_per_run = ground arith in
          (omega arith, omega arith))
        plan s h (omega arith, small)

  -- with verification the flow is that of its first action
  one_action :
      (plan : List PlannedAction) (s : ControlState)
      → actions_sent (execute_action_flow host true plan s []).2 ≤ 1
  unfolding execute_action_flow or_continue
  one_action [] s = omega arith
  one_action (a ∷ plan) s = elim (Bool-cases (leb max_actions_per_run s.action_count)) [
    | inl full ↦ rw full (omega arith)
    | inr room ↦
        let now = run_action host true a s [] in
        let spent : actions_sent now.2 ≤ 1 = omega (arith, run_action-Spends true a s []) in
        rw room (ended now _ (run_action-Ends host a s []) spent)
  ]
    where
      ended :
          (now rest : Flow (Unit {0}))
          → Ends now
          → actions_sent now.2 ≤ 1
          → actions_sent (or_continue now rest).2 ≤ 1
      ended (go_on _, s', h) rest ends few = absurd ends
      ended (returned r, s', h) rest ends few = few
      ended (raised, s', h) rest ends few = few

  few_mutations :
      (verify_after : Bool) (plan : List PlannedAction) (s : ControlState)
      → s.action_count ≤ max_actions_per_run
      → mutations host (execute_action_flow host verify_after plan s []).2 ≤ max_actions_per_run
  few_mutations true plan s small =
      let h = (execute_action_flow host true plan s []).2 in
      let twice = Guarded-twice host h (execute_action_flow-Guarded host true plan s [] tt) in
      let one = one_action plan s in omega (arith, twice, one)
  few_mutations false plan s small =
      let only : OnlyActions host (execute_action_flow host false plan s []).2 =
        execute_action_flow_induction host false (λ _ h. OnlyActions host h)
          (λ a s' h room. run_action-OnlyActions host a s' h) plan s [] (omega arith) in
      let (spent, bounded) = counted false plan s [] small in omega (arith, only, spent, bounded)

  -- From a state whose counter is at most three, and before any call, a flow ends with a counter that
  -- is at most three. The actions have then sent at most as many commands as the counter grew, and at
  -- most twice as many mutations were run, with those of the rollbacks; and never more than three.
  pub execute_action_flow-budget :
      (verify_after : Bool) (plan : List PlannedAction) (s : ControlState)
      → s.action_count ≤ max_actions_per_run
      → let x = execute_action_flow host verify_after plan s [] in
        (x.1.action_count ≤ max_actions_per_run)
        × (actions_sent x.2 + s.action_count ≤ x.1.action_count)
        × (mutations host x.2 + 2 * s.action_count ≤ 2 * x.1.action_count)
        × (mutations host x.2 ≤ max_actions_per_run)
  execute_action_flow-budget verify_after plan s small =
      let (spent, bounded) = counted verify_after plan s [] small in
      let twice =
        Guarded-twice host (execute_action_flow host verify_after plan s []).2
          (execute_action_flow-Guarded host verify_after plan s [] tt) in
      (
        bounded,
        omega (arith, spent),
        omega (arith, spent, twice),
        few_mutations verify_after plan s small,
      )
