-- ===== src/ToolFactory/Activation.antt =====
-- Activation, rollback and the switch of a tool (app/tool_factory/service.py).
use devops_agent.Prelude.{
  Bool, true, false, ◌||◌, not, Option, none, some, List, [], ◌∷◌, ◌++◌, keep_if, if◌then◌else◌,
}
use devops_agent.Text.{Text, codes, text_eq}
use devops_agent.Dict.{lookup}
use devops_agent.ToolFactory.Validation.{ToolDefinition, ToolStatus, approved, active, disabled}
use devops_agent.ToolFactory.Repository.{
  ToolVersion, activated, deactivated, rolled_back, ActivationRecord, OrgTools, save_definition,
  versions_of, or_nothing, get_active_version, set_active_version, record_activation,
}
use devops_agent.ToolFactory.Service.{
  not_found, not_approved, no_active_version, no_history, no_prior_version, Outcome, ok, err,
  version_label,
}

unfoldable pub is_activatable : ToolStatus → Bool
is_activatable approved = true
is_activatable active = true
is_activatable disabled = true
is_activatable _ = false

unfoldable pub activate_target :
    Text
    → Text
    → Text
    → Text
    → ToolDefinition
    → Option ToolVersion
    → OrgTools
    → Outcome (Unit {0}) × OrgTools
unfolding is_activatable set_active_version save_definition record_activation get_active_version
    lookup
activate_target name version actor reason d none s = (err not_found, s)
activate_target name version actor reason d (some target) s =
    if is_activatable d.status
    then (let s1 = set_active_version name version s in
        let d' = record d { version = version; status = active; enabled = true } in
        (
          ok tt,
          record_activation name
              (record {
                version = version;
                action = activated;
                actor = actor;
                reason = reason;
                previous_version = version_label (get_active_version name s);
              })
              (save_definition name d' s1),
        ))
    else (err not_approved, s)

unfoldable pub activate_found :
    Text → Text → Text → Text → Option ToolDefinition → OrgTools → Outcome (Unit {0}) × OrgTools
unfolding activate_target lookup
activate_found name version actor reason none s = (err not_found, s)
activate_found name version actor reason (some d) s =
    activate_target name version actor reason d (lookup version (versions_of name s)) s

unfoldable pub activate_tool_version :
    Text → Text → Text → Text → OrgTools → Outcome (Unit {0}) × OrgTools
unfolding activate_found lookup
activate_tool_version name version actor reason s =
    activate_found name version actor reason (lookup name s.definitions) s

unfoldable pub deactivate_found :
    Text
    → Text
    → Text
    → Option ToolDefinition
    → Option ToolVersion
    → OrgTools
    → Outcome (Unit {0}) × OrgTools
unfolding save_definition record_activation lookup
deactivate_found name actor reason none v s = (err not_found, s)
deactivate_found name actor reason (some d) none s = (err no_active_version, s)
deactivate_found name actor reason (some d) (some v) s = (
  ok tt,
  record_activation name
      (record {
        version = v.version;
        action = deactivated;
        actor = actor;
        reason = reason;
        previous_version = v.version;
      })
      (save_definition name (record d { enabled = false; status = disabled }) s),
)

unfoldable pub deactivate_tool_version :
    Text → Text → Text → OrgTools → Outcome (Unit {0}) × OrgTools
unfolding deactivate_found get_active_version lookup
deactivate_tool_version name actor reason s =
    deactivate_found name actor reason (lookup name s.definitions) (get_active_version name s) s

unfoldable pub is_activation : ActivationRecord → Bool
is_activation r = elim r.action [ deactivated ↦ false | _ ↦ true ]

-- the first record of another version
unfoldable pub other_version : Text → List ActivationRecord → Option Text
other_version current [] = none
other_version current (r ∷ rs) =
    let rest = other_version current rs in
    if text_eq r.version current then rest else some r.version

unfoldable pub rollback_reason : Text → Text
rollback_reason [] = codes "rollback"
rollback_reason (c ∷ s) = codes "rollback: " ++ c ∷ s

unfoldable pub roll_back_after :
    Text → Text → Text → Text → Text → Outcome (Unit {0}) × OrgTools → Outcome (Unit {0}) × OrgTools
unfolding record_activation lookup
roll_back_after name target current actor reason (err e, s) = (err e, s)
roll_back_after name target current actor reason (ok x, s) = (
  ok tt,
  record_activation name
      (record {
        version = target;
        action = rolled_back;
        actor = actor;
        reason = reason;
        previous_version = current;
      })
      s,
)

-- no target is none at all, or the empty text, which `if not target_version` takes for none
unfoldable pub roll_back_to :
    Text → Option Text → Text → Text → Text → OrgTools → Outcome (Unit {0}) × OrgTools
unfolding roll_back_after activate_tool_version rollback_reason
roll_back_to name none current actor reason s = (err no_prior_version, s)
roll_back_to name (some []) current actor reason s = (err no_prior_version, s)
roll_back_to name (some (c ∷ target)) current actor reason s =
    roll_back_after name (c ∷ target) current actor reason
      (activate_tool_version name (c ∷ target) actor (rollback_reason reason) s)

unfoldable pub roll_back_in :
    Text → List ActivationRecord → Text → Text → OrgTools → Outcome (Unit {0}) × OrgTools
unfolding roll_back_to other_version get_active_version lookup
roll_back_in name [] actor reason s = (err no_history, s)
roll_back_in name (r ∷ history) actor reason s =
    let current = version_label (get_active_version name s) in
    roll_back_to name (other_version current (r ∷ history)) current actor reason s

unfoldable pub roll_back_found :
    Text → Option ToolDefinition → Text → Text → OrgTools → Outcome (Unit {0}) × OrgTools
unfolding roll_back_in is_activation keep_if lookup
roll_back_found name none actor reason s = (err not_found, s)
roll_back_found name (some d) actor reason s =
    roll_back_in name (keep_if is_activation (or_nothing (lookup name s.activations))) actor reason
      s

unfoldable pub rollback_tool_version : Text → Text → Text → OrgTools → Outcome (Unit {0}) × OrgTools
unfolding roll_back_found lookup
rollback_tool_version name actor reason s =
    roll_back_found name (lookup name s.definitions) actor reason s

abbrev pub is_some {ℓ} : {A : Type ℓ} → Option A → Bool
is_some none = false
is_some (some a) = true

unfoldable pub toggled : Bool → ToolStatus → ToolStatus
toggled true status = active
toggled false active = disabled
toggled false status = status

unfoldable pub enable_found :
    Text → Bool → Option ToolDefinition → OrgTools → Outcome (Unit {0}) × OrgTools
unfolding toggled save_definition get_active_version lookup
enable_found name enabled none s = (err not_found, s)
enable_found name enabled (some d) s =
    if not enabled || is_some (get_active_version name s)
    then (
      ok tt,
      save_definition name (record d { enabled = enabled; status = toggled enabled d.status }) s,
    )
    else (err no_active_version, s)

unfoldable pub set_enabled : Text → Bool → OrgTools → Outcome (Unit {0}) × OrgTools
unfolding enable_found lookup
set_enabled name enabled s = enable_found name enabled (lookup name s.definitions) s
