-- ===== src/Control/Loop/Reads.antt =====
-- What holds of the history through a verification: it only adds commands that `run_command` passed
-- on and that are no mutations.
use devops_agent.Prelude.{
  ℕ, zero, suc, Bool, Option, none, some, List, [], ◌∷◌, All, Bool-cases, inl, inr, arith, ◌≡◌,
  refl, true, false, ◌++◌,
}
use devops_agent.Text.{Unicode, Text, codes, text_eq}
use devops_agent.Whitelist.{is_action_command_allowed}
use devops_agent.Whitelist.Actions.{
  Mutation, start, stop, restart, restart_service, prefix, differs, differs-refused,
}
use devops_agent.Control.Policy.{validate_target_name}
use devops_agent.Control.Host.{Host, RunResult, finished, History, command_run, run_command}
use devops_agent.Control.Verification.{
  Check, judge_output, checked_run, checked_run?, check_container_running, check_container_healthy,
  check_container_recent_logs, check_service_running, verification_strategies, run_checks,
  verify_rounds, verify_with, verify_action, command_for,
}

-- A command that a check fills with a target is not a mutation, if it begins like none.
command_for-refused :
    (u : Unicode) (before target behind c : Text)
    → ((m : Mutation) (s : Text) → differs (prefix m) (before ++ s) ≡ true)
    → command_for before target behind ≡ some c
    → is_action_command_allowed u c ≡ false
unfolding command_for
command_for-refused u before target behind c other h =
    elim (Bool-cases (validate_target_name target)) [
      | inr bad ↦ cc (rw bad at h)
      | inl good ↦
          let same : before ++ (target ++ behind) ≡ c = cc (rw good at h) in
          rw (← same)
            (differs-refused u (before ++ (target ++ behind)) (λ m. other m (target ++ behind)))
    ]

other_inspect : (m : Mutation) (s : Text) → differs (prefix m) (codes "docker inspect " ++ s) ≡ true
unfolding differs
other_inspect start s = refl
other_inspect stop s = refl
other_inspect restart s = refl
other_inspect restart_service s = refl

other_logs : (m : Mutation) (s : Text) → differs (prefix m) (codes "docker logs " ++ s) ≡ true
unfolding differs
other_logs start s = refl
other_logs stop s = refl
other_logs restart s = refl
other_logs restart_service s = refl

other_status :
    (m : Mutation) (s : Text) → differs (prefix m) (codes "systemctl status " ++ s) ≡ true
unfolding differs
other_status start s = refl
other_status stop s = refl
other_status restart s = refl
other_status restart_service s = refl

other_ps : (m : Mutation) (s : Text) → differs (prefix m) (codes "docker ps " ++ s) ≡ true
unfolding differs
other_ps start s = refl
other_ps stop s = refl
other_ps restart s = refl
other_ps restart_service s = refl

-- `P` is kept by every command of `run_command` that is no mutation.
module _ (host : Host) (P : History → Type 0)
    (closed : (c : Text) (r : RunResult) (h : History)
      → is_action_command_allowed host.unicode c ≡ false
      → P h
      → P (command_run c r ∷ h)) where
  run_command-keeps :
      (c : Text) (h : History)
      → is_action_command_allowed host.unicode c ≡ false
      → P h
      → P (run_command host c h).1
  unfolding run_command
  run_command-keeps c h reads p = ground (arith, closed c (host.execute h c) h reads p)

  judge_output-keeps :
      (passes : Text → Bool) (x : RunResult × History) → P x.1 → P (judge_output passes x).1
  unfolding judge_output
  judge_output-keeps passes (finished out z, h) p = p
  judge_output-keeps passes (RunResult.failed, h) p = p

  checked_run-keeps :
      (c : Text) (passes : Text → Bool) (h : History)
      → is_action_command_allowed host.unicode c ≡ false
      → P h
      → P (checked_run host c passes h).1
  unfolding checked_run
  checked_run-keeps c passes h reads p =
      ground
        (arith, judge_output-keeps passes (run_command host c h) (run_command-keeps c h reads p))

  checked_run?-keeps :
      (o : Option Text) (passes : Text → Bool) (h : History)
      → ((c : Text) → o ≡ some c → is_action_command_allowed host.unicode c ≡ false)
      → P h
      → P (checked_run? host o passes h).1
  unfolding checked_run?
  checked_run?-keeps none passes h reads p = p
  checked_run?-keeps (some c) passes h reads p = checked_run-keeps c passes h (reads c refl) p

  CheckKeeps : Check → Type 0
  CheckKeeps check = (target : Text) (h : History) → P h → P (check host target h).1

  abbrev ps_command : Text
  ps_command = codes "docker ps -a --format '{{.Names}}|{{.Status}}|{{.State}}'"

  check_container_running-keeps : CheckKeeps check_container_running
  unfolding CheckKeeps check_container_running
  check_container_running-keeps target h = checked_run?-keeps (some ps_command) _ h (λ c e.
      let same : ps_command ≡ c = cc e in
      rw (← same) (
        differs-refused host.unicode ps_command
          (λ m. other_ps m (codes "-a --format '{{.Names}}|{{.Status}}|{{.State}}'"))))

  check_container_healthy-keeps : CheckKeeps check_container_healthy
  unfolding CheckKeeps check_container_healthy
  check_container_healthy-keeps target h =
      checked_run?-keeps _ _ h
        (λ c. command_for-refused host.unicode (codes "docker inspect ") target [] c other_inspect)

  check_container_recent_logs-keeps : CheckKeeps check_container_recent_logs
  unfolding CheckKeeps check_container_recent_logs
  check_container_recent_logs-keeps target h = checked_run?-keeps _ _ h (λ c.
      command_for-refused host.unicode (codes "docker logs ") target (codes " --tail 20") c
        other_logs)

  check_service_running-keeps : CheckKeeps check_service_running
  unfolding CheckKeeps check_service_running
  check_service_running-keeps target h =
      checked_run?-keeps _ _ h
        (λ c. command_for-refused host.unicode (codes "systemctl status ") target [] c other_status)

  strategies-keep : (t : Text) → All CheckKeeps (verification_strategies t)
  unfolding verification_strategies
  strategies-keep t = elim (Bool-cases (text_eq t (codes "restart_container"))) [
    | inl container ↦ rw container (
      check_container_running-keeps,
      (check_container_healthy-keeps, (check_container_recent_logs-keeps, tt)),
    )
    | inr other ↦ elim (Bool-cases (text_eq t (codes "restart_service"))) [
      | inl service ↦ rw (other, service) (check_service_running-keeps, tt)
      | inr none_known ↦ rw (other, none_known) tt
    ]
  ]

  run_checks-keeps :
      (checks : List Check) (target : Text) (h : History)
      → All CheckKeeps checks
      → P h
      → P (run_checks checks host target h).1
  unfolding run_checks CheckKeeps
  run_checks-keeps [] target h keep p = p
  run_checks-keeps (check ∷ checks) target h keep p =
      let p' = keep.0 target h p in
      ground (arith, p', run_checks-keeps checks target (check host target h).1 keep.1 p')

  verify_rounds-keeps :
      (n : ℕ) (checks : List Check) (target : Text) (h : History)
      → All CheckKeeps checks
      → P h
      → P (verify_rounds n checks host target h).1
  unfolding verify_rounds
  verify_rounds-keeps zero checks target h keep p = p
  verify_rounds-keeps (suc n) checks target h keep p =
      let p' = run_checks-keeps checks target h keep p in
      ground
        (arith, p', verify_rounds-keeps n checks target (run_checks checks host target h).1 keep p')

  verify_with-keeps :
      (n : ℕ) (checks : List Check) (target : Text) (h : History)
      → All CheckKeeps checks
      → P h
      → P (verify_with checks n host target h).1
  unfolding verify_with
  verify_with-keeps n [] target h keep p = p
  verify_with-keeps n (c ∷ cs) target h keep p = verify_rounds-keeps n (c ∷ cs) target h keep p

  -- A predicate that commands of `run_command` keep, if they are no mutations, is kept by a
  -- verification.
  pub verify_action-keeps :
      (t target : Text) (h : History) → P h → P (verify_action host t target h).1
  unfolding verify_action
  verify_action-keeps t target h p =
      verify_with-keeps 3 (verification_strategies t) target h (strategies-keep t) p
