-- ===== src/Control/Evidence.antt =====
-- The evidence phase of the control loop (app/control/controller.py, `_collect_evidence`) and its stop
-- conditions (app/control/planner.py, `should_stop_evidence_collection`, `can_take_action`). What a
-- tool returns is a parameter; the timeline and the evidence texts are not modelled.
use devops_agent.Prelude.{
  ℕ, ◌+◌, ◌≤◌, ◌≡◌, ◌⊎◌, refl, sym, ap, subst, ◌∙◌, Bool, true, false, ◌&&◌, ◌||◌, List, [], ◌∷◌,
  ◌++◌, map, append_assoc, append-nil, length, leb, ltb, if◌then◌else◌, if_true, if_false, arith,
  Bool-cases, inl, inr,
}
use devops_agent.Text.{Text, codes, is_in}
use devops_agent.Control.Planner.{DiagnosticStep}
use devops_agent.Control.Loop.{max_actions_per_run}

abbrev pub max_diagnostic_commands : ℕ
max_diagnostic_commands = 20

pub record Observation (R : Type 0) : Type 0 where
  pub tool : Text
  pub result : R

-- the fields of `ControlState` that the phase reads or writes; the confidence in hundredths
pub record EvidenceState (R : Type 0) : Type 0 where
  pub observations : List (Observation R)
  pub executed_tools : List Text
  pub diagnostic_command_count : ℕ
  pub has_hypothesis : Bool
  pub confidence : ℕ
  pub action_count : ℕ

module _ {R : Type 0} where
  unfoldable pub should_stop : EvidenceState R → Bool
  unfolding is_in
  should_stop s =
      leb max_diagnostic_commands s.diagnostic_command_count
      || (leb 2 (length s.observations) && s.has_hypothesis && leb 70 s.confidence)
      || is_in (codes "check_infrastructure_health") s.executed_tools

  unfoldable pub can_take_action : EvidenceState R → Bool
  can_take_action s =
      ltb s.action_count max_actions_per_run && s.has_hypothesis && leb 50 s.confidence

  unfoldable pub add_observation : Text → R → EvidenceState R → EvidenceState R
  unfolding is_in
  add_observation tool result s = record s {
    observations = s.observations ++ (record { tool = tool; result = result } ∷ []);
    executed_tools =
        if is_in tool s.executed_tools then s.executed_tools else s.executed_tools ++ (tool ∷ []);
  }

  unfoldable pub observe : R → DiagnosticStep → EvidenceState R → EvidenceState R
  unfolding add_observation
  observe result step s = record (add_observation step.tool result s) {
    diagnostic_command_count = s.diagnostic_command_count + 1;
  }

  module _ (execute_tool : DiagnosticStep → R) where
    -- `for step in plan.steps`
    unfoldable pub collect_evidence : List DiagnosticStep → EvidenceState R → EvidenceState R
    unfolding should_stop observe
    collect_evidence [] s = s
    collect_evidence (step ∷ steps) s =
        let rest = collect_evidence steps (observe (execute_tool step) step s) in
        if should_stop s then s else rest

    abbrev pub observed : DiagnosticStep → Observation R
    observed step = record { tool = step.tool; result = execute_tool step }

    -- the phase ran a first part of the plan
    abbrev pub Ran : List DiagnosticStep → EvidenceState R → EvidenceState R → Type 0
    Ran steps s final =
        (ran : List DiagnosticStep) × (left : List DiagnosticStep) × (steps ≡ (ran ++ left))
        × (final.observations ≡ (s.observations ++ map observed ran))
        × (final.diagnostic_command_count ≡ s.diagnostic_command_count + length ran)
        × (final.diagnostic_command_count ≤ 20)
        × ((left ≡ []) ⊎ (should_stop final ≡ true))

    should_stop-room :
        (s : EvidenceState R) → should_stop s ≡ false → s.diagnostic_command_count + 1 ≤ 20
    unfolding should_stop
    should_stop-room s h = ground arith

    Ran-step :
        (step : DiagnosticStep) (steps : List DiagnosticStep) (s final : EvidenceState R)
        → Ran steps (observe (execute_tool step) step s) final
        → Ran (step ∷ steps) s final
    unfolding observe add_observation
    Ran-step step steps s final (ran, left, split, seen, count, bound, ended) = (
      step ∷ ran,
      left,
      ap (λ l. step ∷ l) split,
      seen ∙ append_assoc s.observations (observed step ∷ []) (map observed ran),
      omega arith,
      bound,
      ended,
    )

    -- The tools that are executed are those of a first part of the plan: there is one observation for
    -- each, in order, and each counts; the rest of the plan is left only if a stop condition holds at
    -- the end; and no more than 20 are executed, of which the count at the start is a part.
    pub collect_evidence-Ran :
        (steps : List DiagnosticStep) (s : EvidenceState R)
        → s.diagnostic_command_count ≤ 20
        → Ran steps s (collect_evidence steps s)
    unfolding collect_evidence
    collect_evidence-Ran [] s h =
        ([], [], refl, sym (append-nil s.observations), omega arith, h, inl refl)
    collect_evidence-Ran (step ∷ steps) s h =
        let rest = collect_evidence steps (observe (execute_tool step) step s) in
        elim (Bool-cases (should_stop s)) [
          | inl stop ↦
              subst (Ran (step ∷ steps) s) (sym (if_true {b = should_stop s} s rest stop))
                ([], step ∷ steps, refl, sym (append-nil s.observations), omega arith, h, inr stop)
          | inr go_on ↦
              subst (Ran (step ∷ steps) s) (sym (if_false {b = should_stop s} s rest go_on)) (
                Ran-step step steps s rest (
                  collect_evidence-Ran steps (observe (execute_tool step) step s)
                    (should_stop-room s go_on)))
        ]
