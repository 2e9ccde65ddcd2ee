-- ===== src/ToolFactory/Requests/Created.antt =====
-- Creation, approval, rejection and new versions keep the store sound.
use devops_agent.Prelude.{
  ◌≡◌, refl, true, Option, none, some, List, [], ◌∷◌, leb, length, Bool-cases, inl, inr,
}
use devops_agent.Text.{Text, Unicode}
use devops_agent.Regex.{full_match}
use devops_agent.Dict.{lookup}
use devops_agent.ToolFactory.Json.{Fields, Python}
use devops_agent.ToolFactory.Validation.{
  ToolDefinition, approved, validated, rejected, Issue, validate_tool_definition,
}
use devops_agent.ToolFactory.Repository.{ToolVersion, OrgTools, versions_of}
use devops_agent.ToolFactory.Service.{
  Outcome, snapshot_version, store_new, if_valid, create_tool, approve_found, is_approvable,
  store_version, version_found, reject_found, new_definition, updated_definition, name_text,
  version_regex,
}
use devops_agent.ToolFactory.Requests.{succeeded}
use devops_agent.ToolFactory.Requests.Valid.{
  Holds, IsGood, IsSound, save-IsSound, save_version-IsSound,
}

module _ (py : Python) (u : Unicode) (IsApproved : Text → Type 0) where
  abbrev Sound : OrgTools → Type 0
  Sound s = IsSound py u IsApproved s

  snapshot-Sound :
      (name : Text) (d : ToolDefinition) (actor reason : Text) (s : OrgTools)
      → Sound s
      → Sound (snapshot_version name d actor reason s).1
  unfolding snapshot_version
  snapshot-Sound name d actor reason s sound =
      elim (Bool-cases (leb 50 (length (versions_of name s)))) [
        | inl full ↦ rw full sound
        | inr room ↦ rw room (save_version-IsSound py u IsApproved _ s refl sound)
      ]

  -- the issues of a validation, with the equation that they are
  if_valid-Sound {ℓ} :
      {A : Type ℓ} (issues : List Issue) (s : OrgTools) (rest : Outcome A × OrgTools)
      → Sound s
      → (issues ≡ [] → Sound rest.1)
      → Sound (if_valid issues s rest).1
  unfolding if_valid
  if_valid-Sound [] s rest sound h = h refl
  if_valid-Sound (i ∷ is) s rest sound h = sound

  store_new-Sound :
      (name : Text) (d : ToolDefinition) (actor : Text) (o : Option ToolDefinition) (s : OrgTools)
      → validate_tool_definition py u d ≡ []
      → Sound s
      → Sound (store_new name d actor o s).1
  unfolding store_new validate_tool_definition
  store_new-Sound name d actor (some existing) s valid sound = sound
  store_new-Sound name d actor none s valid sound =
      snapshot-Sound name (record d { status = validated }) actor _ _
        (save-IsSound py u IsApproved name (record d { status = validated }) s (valid, λ h. cc)
          sound)

  pub create-Sound :
      (version : Option Text) (payload : Fields) (actor : Text) (s : OrgTools)
      → Sound s
      → Sound (create_tool py u version payload actor s).1
  unfolding create_tool
  create-Sound version payload actor s sound =
      let d = new_definition version payload actor in
      if_valid-Sound (validate_tool_definition py u d) s _ sound (λ valid.
        store_new-Sound (name_text d.name) d actor (lookup (name_text d.name) s.definitions) s valid
          sound)

  pub approve_found-Sound :
      (name : Text) (o : Option ToolDefinition) (s : OrgTools)
      → Holds (IsGood py u IsApproved name) o
      → (succeeded (approve_found py u name o s).0 ≡ true → IsApproved name)
      → Sound s
      → Sound (approve_found py u name o s).1
  unfolding approve_found succeeded validate_tool_definition if_valid
  approve_found-Sound name none s good told sound = sound
  approve_found-Sound name (some d) s (valid, released) told sound =
      elim (Bool-cases (is_approvable d.status)) [
        | inl can ↦
            rw (valid, can)
              (save-IsSound py u IsApproved name (record d { status = approved }) s
                (valid, λ h. told (rw (valid, can) refl)) sound)
        | inr cannot ↦ rw (valid, cannot) sound
      ]

  pub reject_found-Sound :
      (name : Text) (o : Option ToolDefinition) (s : OrgTools)
      → Holds (IsGood py u IsApproved name) o
      → Sound s
      → Sound (reject_found name o s).1
  unfolding reject_found validate_tool_definition
  reject_found-Sound name none s good sound = sound
  reject_found-Sound name (some d) s good sound =
      save-IsSound py u IsApproved name (record d { status = rejected }) s (good.0, λ h. cc) sound

  store_version-Sound :
      (name : Text) (d : ToolDefinition) (actor reason : Text) (o : Option ToolVersion)
      (s : OrgTools)
      → IsGood py u IsApproved name d
      → Sound s
      → Sound (store_version py u name d actor reason o s).1
  unfolding store_version
  store_version-Sound name d actor reason (some v) s good sound = sound
  store_version-Sound name d actor reason none s good sound =
      snapshot-Sound name d actor reason _ (save-IsSound py u IsApproved name d s good sound)

  pub version_found-Sound :
      (name version : Text) (payload : Fields) (actor reason : Text) (o : Option ToolDefinition)
      (s : OrgTools)
      → Holds (IsGood py u IsApproved name) o
      → Sound s
      → Sound (version_found py u name version payload actor reason o s).1
  unfolding version_found updated_definition
  version_found-Sound name version payload actor reason none s good sound = sound
  version_found-Sound name version payload actor reason (some d) s good sound =
      elim (Bool-cases (full_match (version_regex py u) version)) [
        | inl semantic ↦ rw semantic (
            if_valid-Sound
              (validate_tool_definition py u (updated_definition version payload actor d)) s _ sound
              (λ valid.
                store_version-Sound name (updated_definition version payload actor d) actor reason
                  (lookup version (versions_of name s)) s (valid, good.1) sound))
        | inr other ↦ rw other sound
      ]
