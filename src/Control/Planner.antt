-- ===== src/Control/Planner.antt =====
-- The diagnostic planner (app/control/planner.py): keywords of a request, the paths that they select,
-- and the steps that are left to run. The stop conditions are in Control/Evidence.
mod Paths
pub mod Steps
pub mod Keywords
pub use Paths.{DiagnosticStep, DiagnosticPath}
unfoldable pub use Paths.{diagnostic_paths, health_path, noise_words}
use devops_agent.Prelude.{
  ℕ, ◌+◌, Bool, true, false, ◌&&◌, ◌||◌, not, List, [], ◌∷◌, ◌++◌, map, any, keep_if, length, leb,
  if◌then◌else◌,
}
use devops_agent.Text.{Text, Unicode, codes, is_in, lower_text}

-- `[a-z]`
unfoldable pub is_small_letter : ℕ → Bool
is_small_letter c = leb 97 c && leb c 122

-- the run of letters that a text begins with, and the runs behind it; a run may be empty
unfoldable pub letter_runs : Text → Text × List Text
letter_runs [] = ([], [])
letter_runs (c ∷ s) =
    let (run, runs) = letter_runs s in
    if is_small_letter c then (c ∷ run, runs) else ([], run ∷ runs)

-- `re.findall(r"[a-z]{3,}", text)`
unfoldable pub find_words : Text → List Text
unfolding letter_runs keep_if
find_words s = let (run, runs) = letter_runs s in keep_if (λ word. leb 3 (length word)) (run ∷ runs)

unfoldable pub extract_keywords : Unicode → Text → List Text
unfolding find_words keep_if
extract_keywords u text =
    keep_if (λ word. not (is_in word noise_words)) (find_words (lower_text u text))

unfoldable pub is_selected : List Text → DiagnosticPath → Bool
unfolding any
is_selected words path = any (λ keyword. is_in keyword words) path.keywords

or_health : List DiagnosticPath → List DiagnosticPath
or_health [] = health_path ∷ []
or_health (p ∷ ps) = p ∷ ps

unfoldable pub matched_paths : List Text → List DiagnosticPath
unfolding is_selected keep_if or_health
matched_paths words = or_health (keep_if (is_selected words) diagnostic_paths)

unfoldable pub all_steps : List DiagnosticPath → List DiagnosticStep
all_steps [] = []
all_steps (p ∷ ps) = p.tools ++ all_steps ps

-- the loop that collects `unique_steps`
unfoldable pub unique_steps : List Text → List Text → List DiagnosticStep → List DiagnosticStep
unique_steps already_done seen [] = []
unique_steps already_done seen (step ∷ steps) =
    elim (not (is_in step.tool already_done) && not (is_in step.tool seen)) [
      | true ↦ step ∷ unique_steps already_done (step.tool ∷ seen) steps
      | false ↦ unique_steps already_done seen steps
    ]

insert_step : DiagnosticStep → List DiagnosticStep → List DiagnosticStep
insert_step step [] = step ∷ []
insert_step step (next ∷ steps) =
    let rest = insert_step step steps in
    if leb step.priority next.priority then step ∷ next ∷ steps else next ∷ rest

-- `unique_steps.sort(key=lambda s: s.priority)`, which is stable
unfoldable pub sort_steps : List DiagnosticStep → List DiagnosticStep
unfolding insert_step
sort_steps [] = []
sort_steps (step ∷ steps) = insert_step step (sort_steps steps)

-- the steps of the plan for a request, with what has been executed
unfoldable pub plan_diagnostic_steps : Unicode → Text → List Text → List DiagnosticStep
unfolding extract_keywords matched_paths unique_steps sort_steps
plan_diagnostic_steps u request executed_tools =
    let words = extract_keywords u (lower_text u request) in
    sort_steps (unique_steps executed_tools [] (all_steps (matched_paths words)))
