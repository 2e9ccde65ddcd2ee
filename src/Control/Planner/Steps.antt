-- ===== src/Control/Planner/Steps.antt =====
-- Which steps a plan has.
use devops_agent.Prelude.{
  ℕ, suc, ◌≡◌, refl, ap, Bool, true, false, ◌&&◌, ◌||◌, not, List, [], ◌∷◌, any, if◌then◌else◌,
  arith, Bool-cases, inl, inr,
}
use devops_agent.Text.{Text, Unicode, text_eq, is_in, lower_text, text_eq→eq}
use devops_agent.Control.Planner.{
  DiagnosticStep, extract_keywords, matched_paths, all_steps, unique_steps, insert_step, sort_steps,
  plan_diagnostic_steps,
}

-- how often a tool stands in a list of steps
abbrev pub tool_count : Text → List DiagnosticStep → ℕ
tool_count t [] = 0
tool_count t (s ∷ ss) = let rest = tool_count t ss in if text_eq t s.tool then suc rest else rest

abbrev pub has_tool : Text → List DiagnosticStep → Bool
has_tool t [] = false
has_tool t (s ∷ ss) = text_eq t s.tool || has_tool t ss

tool_count-insert :
    (t : Text) (s : DiagnosticStep) (ss : List DiagnosticStep)
    → tool_count t (insert_step s ss) ≡ tool_count t (s ∷ ss)
unfolding insert_step
tool_count-insert t s [] = refl
tool_count-insert t s (x ∷ ss) = ground (arith, tool_count-insert t s ss)

tool_count-sort :
    (t : Text) (ss : List DiagnosticStep) → tool_count t (sort_steps ss) ≡ tool_count t ss
unfolding sort_steps
tool_count-sort t [] = refl
tool_count-sort t (s ∷ ss) =
    let inserted = tool_count-insert t s (sort_steps ss) in ground (arith, tool_count-sort t ss)

tool_count-unique_steps :
    (t : Text) (already_done seen : List Text) (ss : List DiagnosticStep)
    → tool_count t (unique_steps already_done seen ss)
      ≡ (if has_tool t ss && not (is_in t already_done) && not (is_in t seen) then 1 else 0)
unfolding unique_steps is_in any
tool_count-unique_steps t already_done seen [] = refl
tool_count-unique_steps t already_done seen (s ∷ ss) =
    let later = tool_count-unique_steps t already_done (s.tool ∷ seen) ss in
    let skipped = tool_count-unique_steps t already_done seen ss in
    let same_word : text_eq t s.tool ≡ true
        → (words : List Text) → is_in t words ≡ is_in s.tool words =
      λ same words. ap (λ w. is_in w words) (text_eq→eq t s.tool same) in
    elim (Bool-cases (not (is_in s.tool already_done) && not (is_in s.tool seen))) [
      | inl fresh ↦ elim (Bool-cases (text_eq t s.tool)) [
        | inl same ↦
            let done_eq = same_word same already_done in
            let seen_eq = same_word same seen in rw (tool_count, fresh) (ground arith)
        | inr other ↦ rw (tool_count, fresh) (ground arith)
      ]
      | inr stale ↦ elim (Bool-cases (text_eq t s.tool)) [
        | inl same ↦
            let done_eq = same_word same already_done in
            let seen_eq = same_word same seen in rw (tool_count, stale) (ground arith)
        | inr other ↦ rw (tool_count, stale) (ground arith)
      ]
    ]

-- A tool stands in the plan exactly once if a selected path has it and it was not executed before,
-- and else not at all.
pub plan_diagnostic_steps-once :
    (u : Unicode) (request : Text) (executed_tools : List Text) (t : Text)
    → tool_count t (plan_diagnostic_steps u request executed_tools) ≡ (
        if has_tool t (all_steps (matched_paths (extract_keywords u (lower_text u request))))
          && not (is_in t executed_tools)
        then 1
        else 0)
unfolding plan_diagnostic_steps is_in any
plan_diagnostic_steps-once u request executed_tools t =
    let steps = all_steps (matched_paths (extract_keywords u (lower_text u request))) in
    let sorted = tool_count-sort t (unique_steps executed_tools [] steps) in
    let once = tool_count-unique_steps t executed_tools [] steps in ground arith
