-- ===== src/Control/Verification.antt =====
-- The verification engine (app/control/verification.py): the checks on a target, and the retries.
-- A check yields whether it passed; `none` is the `ValidationError` of a command builder.
use devops_agent.Prelude.{
  ℕ, zero, suc, Bool, true, false, not, ◌||◌, Option, none, some, List, [], ◌∷◌, ◌++◌,
  if◌then◌else◌, any, all,
}
use devops_agent.Text.{Text, codes, text_eq, found_in, lower_text, strip, split_on, split_lines}
use devops_agent.Whitelist.{is_command_allowed}
use devops_agent.Control.Policy.{validate_target_name}
use devops_agent.Control.Host.{Host, RunResult, finished, History, run_command}

pub data VerificationStatus : Type 0 where
  success failed degraded unknown : VerificationStatus

-- `parts[0].strip() == target`, with at least three parts
unfoldable pub container_state : Text → List Text → Option Text
container_state target (name ∷ status ∷ state ∷ rest) =
    if text_eq (strip name) target then some state else none
container_state target _ = none

unfoldable pub container_runs : Host → Text → List Text → Bool
container_runs host target [] = false
container_runs host target (line ∷ lines) = elim (container_state target (split_on b'|' line)) [
  | some state ↦ text_eq (lower_text host.unicode (strip state)) (codes "running")
  | none ↦ container_runs host target lines
]

-- the tests on the lower-case output
unfoldable pub health_passes : Text → Bool
health_passes out =
    if found_in (codes "unhealthy") out
    then false
    else (if found_in (codes "\"health\": \"\"") out || not (found_in (codes "\"health\":") out)
        then true
        else true)

abbrev pub crash_indicators : List Text
crash_indicators =
    codes "panic" ∷ codes "fatal" ∷ codes "segfault" ∷ codes "killed" ∷ codes "oom" ∷ []

unfoldable pub logs_pass : Text → Bool
logs_pass out = not (any (λ indicator. found_in indicator out) crash_indicators)

unfoldable pub service_passes : Text → Bool
service_passes out =
    if found_in (codes "active (running)") out
    then true
    else (if found_in (codes "active (exited)") out
        then false
        else (if found_in (codes "inactive") out || found_in (codes "failed") out
            then false
            else false))

-- `validate_container_name` and `validate_service_name` raise where the name does not match
unfoldable pub command_for : Text → Text → Text → Option Text
command_for before target behind =
    if validate_target_name target then some (before ++ (target ++ behind)) else none

unfoldable pub judge_output : (Text → Bool) → RunResult × History → Bool × History
judge_output passes (finished out zero_code, h) = (passes out, h)
judge_output passes (RunResult.failed, h) = (false, h)

-- the whitelist test, the run, and the verdict on the output
unfoldable pub checked_run : Host → Text → (Text → Bool) → History → Bool × History
unfolding judge_output
checked_run host command passes h =
    if is_command_allowed host.unicode host.patterns command
    then judge_output passes (run_command host command h)
    else (false, h)

unfoldable pub checked_run? : Host → Option Text → (Text → Bool) → History → Option Bool × History
checked_run? host none passes h = (none, h)
checked_run? host (some command) passes h =
    let (passed, h') = checked_run host command passes h in (some passed, h')

abbrev pub Check : Type 0
Check = Host → Text → History → Option Bool × History

unfoldable pub check_container_running : Check
check_container_running host target h =
    checked_run? host (some (codes "docker ps -a --format '{{.Names}}|{{.Status}}|{{.State}}'"))
      (λ out. container_runs host target (split_lines out)) h

unfoldable pub check_container_healthy : Check
check_container_healthy host target h =
    checked_run? host (command_for (codes "docker inspect ") target [])
      (λ out. health_passes (lower_text host.unicode out)) h

unfoldable pub check_container_recent_logs : Check
check_container_recent_logs host target h =
    checked_run? host (command_for (codes "docker logs ") target (codes " --tail 20"))
      (λ out. logs_pass (lower_text host.unicode out)) h

unfoldable pub check_service_running : Check
check_service_running host target h =
    checked_run? host (command_for (codes "systemctl status ") target [])
      (λ out. service_passes (lower_text host.unicode out)) h

unfoldable pub verification_strategies : Text → List Check
verification_strategies t =
    if text_eq t (codes "restart_container")
    then check_container_running ∷ check_container_healthy ∷ check_container_recent_logs ∷ []
    else (if text_eq t (codes "restart_service") then check_service_running ∷ [] else [])

prepend : Option Bool → Option (List Bool) → Option (List Bool)
prepend (some passed) (some checks) = some (passed ∷ checks)
prepend _ _ = none

-- One round of all checks. A raised error ends the round: the later checks are not made.
unfoldable pub run_checks : List Check → Host → Text → History → Option (List Bool) × History
unfolding prepend
run_checks [] host target h = (some [], h)
run_checks (check ∷ checks) host target h =
    let (passed, h') = check host target h in
    let (rest, h'') = run_checks checks host target h' in
    elim passed [ some p ↦ (prepend (some p) rest, h'') | none ↦ (none, h') ]

abbrev is_true : Bool → Bool
is_true b = b

-- what a round of an attempt says, with the number of attempts still to come; `none` is `continue`
unfoldable pub judge_round : List Bool → ℕ → Option VerificationStatus
judge_round checks later = if all is_true checks then some success else (elim later [
  | suc k ↦ none
  | zero ↦ if any is_true checks then some degraded else some failed
])

-- the attempts that remain
unfoldable pub verify_rounds :
    ℕ → List Check → Host → Text → History → Option VerificationStatus × History
unfolding judge_round
verify_rounds zero checks host target h = (some failed, h)
verify_rounds (suc later) checks host target h =
    let (round, h') = run_checks checks host target h in
    let again = verify_rounds later checks host target h' in
    elim round [
      | none ↦ (none, h')
      | some passed ↦ elim (judge_round passed later) [
        | some status ↦ (some status, h')
        | none ↦ again
      ]
    ]

unfoldable pub verify_with :
    List Check → ℕ → Host → Text → History → Option VerificationStatus × History
verify_with [] attempts host target h = (some unknown, h)
verify_with (c ∷ cs) attempts host target h = verify_rounds attempts (c ∷ cs) host target h

-- with the default `max_attempts=3`
unfoldable pub verify_action : Host → Text → Text → History → Option VerificationStatus × History
unfolding verification_strategies
verify_action host action_type target h =
    verify_with (verification_strategies action_type) 3 host target h
