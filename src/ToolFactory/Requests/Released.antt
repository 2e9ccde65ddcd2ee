-- ===== src/ToolFactory/Requests/Released.antt =====
-- Activation, deactivation, rollback and the switch keep the store sound.
use devops_agent.Prelude.{
  ◌≡◌, ◌≢◌, refl, Bool, true, false, ◌||◌, not, Option, none, some, List, [], ◌∷◌, arith,
  Bool-cases, inl, inr, ◌⊎◌,
}
use devops_agent.Text.{Text, Unicode}
use devops_agent.Dict.{lookup}
use devops_agent.ToolFactory.Json.{Python}
use devops_agent.ToolFactory.Validation.{
  ToolDefinition, ToolStatus, approved, active, disabled, validated, rejected, draft,
  validate_tool_definition,
}
use devops_agent.ToolFactory.Repository.{
  ToolVersion, ActivationRecord, OrgTools, set_active_version, record_activation,
  get_active_version, versions_of, first_active,
}
use devops_agent.ToolFactory.Service.{Outcome, ok, err}
use devops_agent.ToolFactory.Activation.{
  activate_target, activate_found, activate_tool_version, deactivate_found, deactivate_tool_version,
  roll_back_after, roll_back_to, roll_back_in, roll_back_found, enable_found, is_activatable,
  is_some, rollback_reason, toggled,
}
use devops_agent.ToolFactory.Requests.Valid.{
  Holds, is_released, IsGood, IsSound, save-IsSound, set_active-IsSound,
}

is_released-activatable : (t : ToolStatus) → is_activatable t ≡ true → is_released t ≡ true
unfolding is_activatable
is_released-activatable t h = ground arith

module _ (py : Python) (u : Unicode) (IsApproved : Text → Type 0) where
  abbrev Sound : OrgTools → Type 0
  Sound s = IsSound py u IsApproved s

  activate_target-Sound :
      (name version actor reason : Text) (d : ToolDefinition) (o : Option ToolVersion)
      (s : OrgTools)
      → IsGood py u IsApproved name d
      → Sound s
      → Sound (activate_target name version actor reason d o s).1
  unfolding activate_target validate_tool_definition record_activation is_activatable
  activate_target-Sound name version actor reason d none s good sound = sound
  activate_target-Sound name version actor reason d (some v) s good sound =
      elim (Bool-cases (is_activatable d.status)) [
        | inl can ↦
            let ok_name : IsApproved name = good.1 (is_released-activatable d.status can) in
            rw can (
              save-IsSound py u IsApproved name
                (record d { version = version; status = active; enabled = true })
                (set_active_version name version s) (good.0, λ h. ok_name)
                (set_active-IsSound py u IsApproved name version s ok_name sound))
        | inr cannot ↦ rw cannot sound
      ]

  activate_found-Sound :
      (name version actor reason : Text) (o : Option ToolDefinition) (s : OrgTools)
      → Holds (IsGood py u IsApproved name) o
      → Sound s
      → Sound (activate_found name version actor reason o s).1
  unfolding activate_found
  activate_found-Sound name version actor reason none s good sound = sound
  activate_found-Sound name version actor reason (some d) s good sound =
      activate_target-Sound name version actor reason d (lookup version (versions_of name s)) s good
        sound

  pub activate-Sound :
      (name version actor reason : Text) (s : OrgTools)
      → Sound s
      → Sound (activate_tool_version name version actor reason s).1
  unfolding activate_tool_version
  activate-Sound name version actor reason s sound =
      activate_found-Sound name version actor reason (lookup name s.definitions) s (sound name).0
        sound

  deactivate_found-Sound :
      (name actor reason : Text) (o : Option ToolDefinition) (v : Option ToolVersion) (s : OrgTools)
      → Holds (IsGood py u IsApproved name) o
      → (v ≢ none → IsApproved name)
      → Sound s
      → Sound (deactivate_found name actor reason o v s).1
  unfolding deactivate_found record_activation validate_tool_definition
  deactivate_found-Sound name actor reason none v s good was sound = sound
  deactivate_found-Sound name actor reason (some d) none s good was sound = sound
  deactivate_found-Sound name actor reason (some d) (some v) s good was sound =
      save-IsSound py u IsApproved name (record d { enabled = false; status = disabled }) s
        (good.0, λ h. was (λ e. cc)) sound

  pub deactivate-Sound :
      (name actor reason : Text) (s : OrgTools)
      → Sound s
      → Sound (deactivate_tool_version name actor reason s).1
  unfolding deactivate_tool_version get_active_version
  deactivate-Sound name actor reason s sound =
      deactivate_found-Sound name actor reason (lookup name s.definitions)
        (first_active (versions_of name s)) s (sound name).0 (sound name).1 sound

  roll_back_after-Sound :
      (name target current actor reason : Text) (r : Outcome (Unit {0}) × OrgTools)
      → Sound r.1
      → Sound (roll_back_after name target current actor reason r).1
  unfolding roll_back_after record_activation
  roll_back_after-Sound name target current actor reason (ok x, s) sound = sound
  roll_back_after-Sound name target current actor reason (err e, s) sound = sound

  roll_back_to-Sound :
      (name : Text) (target : Option Text) (current actor reason : Text) (s : OrgTools)
      → Sound s
      → Sound (roll_back_to name target current actor reason s).1
  unfolding roll_back_to
  roll_back_to-Sound name none current actor reason s sound = sound
  roll_back_to-Sound name (some []) current actor reason s sound = sound
  roll_back_to-Sound name (some (c ∷ target)) current actor reason s sound =
      roll_back_after-Sound name (c ∷ target) current actor reason
        (activate_tool_version name (c ∷ target) actor (rollback_reason reason) s)
        (activate-Sound name (c ∷ target) actor (rollback_reason reason) s sound)

  roll_back_in-Sound :
      (name : Text) (history : List ActivationRecord) (actor reason : Text) (s : OrgTools)
      → Sound s
      → Sound (roll_back_in name history actor reason s).1
  unfolding roll_back_in
  roll_back_in-Sound name [] actor reason s sound = sound
  roll_back_in-Sound name (r ∷ history) actor reason s sound =
      roll_back_to-Sound name _ _ actor reason s sound

  pub roll_back_found-Sound :
      (name : Text) (o : Option ToolDefinition) (actor reason : Text) (s : OrgTools)
      → Sound s
      → Sound (roll_back_found name o actor reason s).1
  unfolding roll_back_found
  roll_back_found-Sound name none actor reason s sound = sound
  roll_back_found-Sound name (some d) actor reason s sound =
      roll_back_in-Sound name _ actor reason s sound

  -- the switch gives a released status only to a tool with an active version, or one released before
  toggled-released :
      (enabled : Bool) (t : ToolStatus) (v : Option ToolVersion)
      → not enabled || is_some v ≡ true
      → is_released (toggled enabled t) ≡ true
      → (v ≢ none) ⊎ (is_released t ≡ true)
  unfolding toggled
  toggled-released true t none can h = cc
  toggled-released true t (some v) can h = inl (λ e. cc)
  toggled-released false active v can h = inr refl
  toggled-released false approved v can h = inr refl
  toggled-released false disabled v can h = inr refl
  toggled-released false draft v can h = cc
  toggled-released false validated v can h = cc
  toggled-released false rejected v can h = cc

  pub enable_found-Sound :
      (name : Text) (enabled : Bool) (o : Option ToolDefinition) (s : OrgTools)
      → Holds (IsGood py u IsApproved name) o
      → Sound s
      → Sound (enable_found name enabled o s).1
  unfolding enable_found validate_tool_definition get_active_version
  enable_found-Sound name enabled none s good sound = sound
  enable_found-Sound name enabled (some d) s good sound =
      let v = first_active (versions_of name s) in
      elim (Bool-cases (not enabled || is_some v)) [
        | inl can ↦ rw can (
            save-IsSound py u IsApproved name
              (record d { enabled = enabled; status = toggled enabled d.status }) s
              (
                good.0,
                λ h. elim (toggled-released enabled d.status v can h) [
                  | inl has ↦ (sound name).1 has
                  | inr was ↦ good.1 was
                ],
              )
              sound)
        | inr cannot ↦ rw cannot sound
      ]
