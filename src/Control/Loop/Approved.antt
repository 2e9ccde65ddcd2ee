-- ===== src/Control/Loop/Approved.antt =====
-- Every mutation that an action sends was approved by the operator just before, and a rollback repeats
-- one of them.
use devops_agent.Prelude.{
  ◌≡◌, refl, Bool, true, false, Option, none, some, List, [], ◌∷◌, Bool-cases, inl, inr,
}
use devops_agent.Text.{Text}
use devops_agent.Whitelist.{is_action_command_allowed}
use devops_agent.Control.State.{ApprovalStatus, pending}
use devops_agent.Control.Permissions.{ApprovalRequest, evaluate_approval}
use devops_agent.Control.Host.{Host, asked, History, run_action_command}
use devops_agent.Control.Actions.{
  ActionResult, is_done, is_action_executable, build_action_command, result_of, send,
  execute_action,
}
use devops_agent.Control.Rollback.{create_rollback_plan}
use devops_agent.Control.Recovery.{conclude}
use devops_agent.Control.Session.{PlannedAction, ControlState}
use devops_agent.Control.Loop.{
  or_empty, Proposal, propose, after_answer, approval_gate, perform, then_perform, run_action,
  execute_action_flow,
}
use devops_agent.Control.Loop.Guard.{JustApproved, Repeats, Guarded, mutations, Guarded-no_mutation}
use devops_agent.Control.Loop.Plan.{build_action_command-plan}
use devops_agent.Control.Loop.Induction.{execute_action_flow_induction}
use devops_agent.Control.Loop.Keeps.{conclude-turns}

-- the command of an action, as the request shows it
abbrev command_of : Host → PlannedAction → Text
command_of host a = or_empty (build_action_command host.unicode a.action_type a.target)

module _ (host : Host) where
  send-Guarded :
      (o : Option Text) (h : History)
      → Guarded host h
      → JustApproved host (or_empty o) h
      → Guarded host (send host o h).1
  unfolding send run_action_command
  send-Guarded none h g j = g
  send-Guarded (some c) h g j = elim (Bool-cases (is_action_command_allowed host.unicode c)) [
    | inl listed ↦ rw listed (j, listed, g)
    | inr unlisted ↦ rw unlisted g
  ]

  execute_action-Guarded :
      (a : PlannedAction) (h : History)
      → Guarded host h
      → (is_action_executable a.action_type ≡ true → JustApproved host (command_of host a) h)
      → Guarded host (execute_action host a.action_type a.target h).1
  unfolding execute_action
  execute_action-Guarded a h g j = elim (Bool-cases (is_action_executable a.action_type)) [
    | inl listed ↦
        rw listed
          (send-Guarded (build_action_command host.unicode a.action_type a.target) h g (j listed))
    | inr unlisted ↦ rw unlisted g
  ]

  -- a command that was run can be repeated
  send-Repeats :
      (o : Option Text) (c : Text) (h : History)
      → ((d : Text) → o ≡ some d → d ≡ c)
      → is_done (send host o h).0 ≡ true
      → Repeats host c (send host o h).1
  unfolding send run_action_command result_of
  send-Repeats none c h e finished = absurd (cc finished)
  send-Repeats (some d) c h e finished =
      elim (Bool-cases (is_action_command_allowed host.unicode d)) [
        | inl listed ↦ rw listed (e d refl)
        | inr unlisted ↦ absurd (cc (rw unlisted at finished))
      ]

  execute_action-Repeats :
      (a : PlannedAction) (h : History)
      → is_done (execute_action host a.action_type a.target h).0 ≡ true
      → (create_rollback_plan a.action_type a.target).available ≡ true
      → Repeats host
          (create_rollback_plan a.action_type a.target).command
          (execute_action host a.action_type a.target h).1
  unfolding execute_action
  execute_action-Repeats a h finished can = elim (Bool-cases (is_action_executable a.action_type)) [
    | inr unlisted ↦ absurd (cc (rw unlisted at finished))
    | inl listed ↦ rw listed (
        send-Repeats (build_action_command host.unicode a.action_type a.target)
          (create_rollback_plan a.action_type a.target).command h
          (λ d. build_action_command-plan host.unicode a.action_type a.target d can)
          (rw listed at finished))
  ]

  abbrev CanRollBack : PlannedAction → History → Type 0
  CanRollBack a h =
      Guarded host h
      × ((create_rollback_plan a.action_type a.target).available ≡ true
          → Repeats host (create_rollback_plan a.action_type a.target).command h)

  conclude-Guarded :
      (verify_after : Bool) (a : PlannedAction) (result : ActionResult) (s : ControlState)
      (h : History)
      → Guarded host h
      → (is_done result ≡ true → CanRollBack a h)
      → Guarded host (conclude host verify_after a result s h).2
  conclude-Guarded verify_after a result s h =
      conclude-turns host a (CanRollBack a) (Guarded host)
        (λ c r h' reads (g, repeats). ((inl reads, g), (λ can. (reads, repeats can))))
        (λ c r h' reads g. (inl reads, g)) (λ h' (g, repeats). g)
        (λ r h' can (g, repeats). (inr (repeats can), g)) result verify_after s h

  perform-Guarded :
      (verify_after : Bool) (p : Proposal) (s : ControlState) (h : History)
      → Guarded host h
      → (is_action_executable p.action.action_type ≡ true
          → JustApproved host (command_of host p.action) h)
      → Guarded host (perform host verify_after p s h).2
  unfolding perform
  perform-Guarded verify_after p s h g j =
      let g' = execute_action-Guarded p.action h g j in
      conclude-Guarded verify_after p.action _ _ _ g'
        (λ finished. (g', execute_action-Repeats p.action h finished))

  -- an answer goes on only if it is yes
  answered-Guarded :
      (verify_after : Bool) (p : Proposal) (answer : Bool) (s : ControlState) (h : History)
      → p.request.command ≡ command_of host p.action
      → host.approve h p.request ≡ answer
      → Guarded host h
      → Guarded host
          (then_perform host verify_after p (after_answer answer (s, asked p.request answer ∷ h))).2
  unfolding then_perform after_answer
  answered-Guarded verify_after p true s h shown said g =
      perform-Guarded verify_after p _ (asked p.request true ∷ h) g (λ listed. (shown, said))
  answered-Guarded verify_after p false s h shown said g = g

  gated-Guarded :
      (verify_after : Bool) (p : Proposal) (status : ApprovalStatus) (s : ControlState)
      (h : History)
      → p.request.command ≡ command_of host p.action
      → (is_action_executable p.action.action_type ≡ true → status ≡ pending)
      → Guarded host h
      → Guarded host (then_perform host verify_after p (approval_gate host p.request status s h)).2
  unfolding approval_gate then_perform
  gated-Guarded verify_after p ApprovalStatus.blocked s h shown only g = g
  gated-Guarded verify_after p pending s h shown only g =
      answered-Guarded verify_after p (host.approve h p.request) s h shown refl g
  gated-Guarded verify_after p ApprovalStatus.approved s h shown only g =
      perform-Guarded verify_after p s h g (λ listed. absurd (cc (only listed)))
  gated-Guarded verify_after p ApprovalStatus.denied s h shown only g =
      perform-Guarded verify_after p s h g (λ listed. absurd (cc (only listed)))
  gated-Guarded verify_after p ApprovalStatus.auto_approved s h shown only g =
      perform-Guarded verify_after p s h g (λ listed. absurd (cc (only listed)))

  executable-pending :
      (request : ApprovalRequest)
      → is_action_executable request.action_type ≡ true
      → (evaluate_approval request).status ≡ pending
  unfolding evaluate_approval is_action_executable
  executable-pending request listed = rw listed

  pub run_action-Guarded :
      (verify_after : Bool) (a : PlannedAction) (s : ControlState) (h : History)
      → Guarded host h
      → Guarded host (run_action host verify_after a s h).2
  unfolding run_action propose
  run_action-Guarded verify_after a s h g =
      let p = propose host a s in
      gated-Guarded verify_after p _ _ h refl (executable-pending p.request) g

  -- Whatever the plan, the operator's answers and the host's results, a flow that starts from a
  -- guarded history ends with one: each command that an action sent is on the action whitelist, and
  -- directly before it the operator said yes to a request that showed this very command; each other
  -- command that was run is no mutation, or is the very command of the action before it, with no other
  -- mutation in between, as the restart of a rollback is, for which nobody is asked.
  pub execute_action_flow-Guarded :
      (verify_after : Bool) (plan : List PlannedAction) (s : ControlState) (h : History)
      → Guarded host h
      → Guarded host (execute_action_flow host verify_after plan s h).2
  execute_action_flow-Guarded verify_after plan s h g =
      execute_action_flow_induction host verify_after (λ _ h'. Guarded host h')
        (λ a s' h' room g'. run_action-Guarded verify_after a s' h' g') plan s h g

-- Where the operator never says yes, as with the default `user_approve_fn`, a flow runs no mutation
-- at all, neither for an action nor for a rollback, whatever the plan.
pub execute_action_flow-denied :
    (host : Host) (verify_after : Bool) (plan : List PlannedAction) (s : ControlState)
    → ((h : History) (request : ApprovalRequest) → host.approve h request ≡ false)
    → mutations host (execute_action_flow host verify_after plan s []).2 ≡ 0
execute_action_flow-denied host verify_after plan s no_one =
    Guarded-no_mutation host (execute_action_flow host verify_after plan s []).2 no_one
      (execute_action_flow-Guarded host verify_after plan s [] tt)
