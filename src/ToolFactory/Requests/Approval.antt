-- ===== src/ToolFactory/Requests/Approval.antt =====
-- What holds after any requests to the service.
use devops_agent.Prelude.{
  ◌≡◌, refl, true, some, List, [], ◌∷◌, subst, any, any-append_left, any-append_right,
}
use devops_agent.Text.{Text, Unicode, text_eq, text_eq_refl, is_in}
use devops_agent.Dict.{lookup}
use devops_agent.ToolFactory.Json.{Python}
use devops_agent.ToolFactory.Validation.{ToolDefinition, validate_tool_definition}
use devops_agent.ToolFactory.Repository.{OrgTools, first_active}
use devops_agent.ToolFactory.Service.{
  approve_tool_definition, create_tool_version, reject_tool_definition,
}
use devops_agent.ToolFactory.Activation.{rollback_tool_version, set_enabled}
use devops_agent.ToolFactory.Requests.{
  ToolRequest, create, approve, reject, new_version, activate, deactivate, roll_back, enable,
  no_tools, serve, serve_all, approvals, approved_by, succeeded,
}
use devops_agent.ToolFactory.Requests.Valid.{Holds, is_released, IsGood, IsSound}
use devops_agent.ToolFactory.Requests.Created.{
  create-Sound, approve_found-Sound, reject_found-Sound, version_found-Sound,
}
use devops_agent.ToolFactory.Requests.Released.{
  activate-Sound, deactivate-Sound, roll_back_found-Sound, enable_found-Sound,
}

module _ (py : Python) (u : Unicode) (IsApproved : Text → Type 0) where
  abbrev Sound : OrgTools → Type 0
  Sound s = IsSound py u IsApproved s

  -- an approval that goes through counts as one
  abbrev Told : ToolRequest → OrgTools → Type 0
  Told (approve name) s = succeeded (approve_tool_definition py u name s).0 ≡ true → IsApproved name
  Told _ s = Unit

  serve-Sound : (r : ToolRequest) (s : OrgTools) → Told r s → Sound s → Sound (serve py u r s)
  unfolding serve approve_tool_definition reject_tool_definition create_tool_version
      rollback_tool_version set_enabled
  serve-Sound (create version payload actor) s told sound =
      create-Sound py u IsApproved version payload actor s sound
  serve-Sound (approve name) s told sound =
      approve_found-Sound py u IsApproved name (lookup name s.definitions) s (sound name).0 told
        sound
  serve-Sound (reject name) s told sound =
      reject_found-Sound py u IsApproved name (lookup name s.definitions) s (sound name).0 sound
  serve-Sound (new_version name version payload actor reason) s told sound =
      version_found-Sound py u IsApproved name version payload actor reason
        (lookup name s.definitions) s (sound name).0 sound
  serve-Sound (activate name version actor reason) s told sound =
      activate-Sound py u IsApproved name version actor reason s sound
  serve-Sound (deactivate name actor reason) s told sound =
      deactivate-Sound py u IsApproved name actor reason s sound
  serve-Sound (roll_back name actor reason) s told sound =
      roll_back_found-Sound py u IsApproved name (lookup name s.definitions) actor reason s sound
  serve-Sound (enable name enabled) s told sound =
      enable_found-Sound py u IsApproved name enabled (lookup name s.definitions) s (sound name).0
        sound

  told :
      (r : ToolRequest) (s : OrgTools)
      → ((k : Text) → is_in k (approved_by py u r s) ≡ true → IsApproved k)
      → Told r s
  unfolding approved_by is_in any
  told (approve name) s h = λ went. h name (rw (went, text_eq_refl name) refl)
  told (create version payload actor) s h = tt
  told (reject name) s h = tt
  told (new_version name version payload actor reason) s h = tt
  told (activate name version actor reason) s h = tt
  told (deactivate name actor reason) s h = tt
  told (roll_back name actor reason) s h = tt
  told (enable name enabled) s h = tt

  serve_all-Sound :
      (rs : List ToolRequest) (s : OrgTools)
      → ((k : Text) → is_in k (approvals py u rs s) ≡ true → IsApproved k)
      → Sound s
      → Sound (serve_all py u rs s)
  unfolding serve_all approvals is_in
  serve_all-Sound [] s h sound = sound
  serve_all-Sound (r ∷ rs) s h sound =
      serve_all-Sound rs (serve py u r s)
        (λ k later. h k (any-append_right (text_eq k) (approved_by py u r s) _ later))
        (serve-Sound r s
          (told r s (λ k now. h k (any-append_left (text_eq k) (approved_by py u r s) _ now)))
          sound)

-- After any requests to a service that began without tools, every definition that it holds passes
-- validation, and one that is approved, active or disabled had an approval that went through.
pub serve_all-no_tools :
    (py : Python) (u : Unicode) (rs : List ToolRequest) (name : Text) (d : ToolDefinition)
    → lookup name (serve_all py u rs no_tools).definitions ≡ some d
    → (validate_tool_definition py u d ≡ [])
      × (is_released d.status ≡ true → is_in name (approvals py u rs no_tools) ≡ true)
unfolding no_tools lookup first_active
serve_all-no_tools py u rs name d found =
    let sound : IsSound py u (λ k. is_in k (approvals py u rs no_tools) ≡ true)
        (serve_all py u rs no_tools) =
      serve_all-Sound py u (λ k. is_in k (approvals py u rs no_tools) ≡ true) rs no_tools (λ k h. h)
        (λ k. (tt, λ h. elim (h refl) [ ])) in
    subst (Holds (IsGood py u (λ k. is_in k (approvals py u rs no_tools) ≡ true) name)) found
      (sound name).0
