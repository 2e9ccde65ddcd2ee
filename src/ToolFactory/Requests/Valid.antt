-- ===== src/ToolFactory/Requests/Valid.antt =====
-- What every definition that the service holds satisfies, and that each operation keeps it.
use devops_agent.Prelude.{
  ◌≡◌, ◌≢◌, Bool, true, false, Option, none, some, [], ◌∷◌, arith, Bool-cases, inl, inr,
}
use devops_agent.Text.{Text, Unicode, text_eq, text_eq→eq}
use devops_agent.Dict.{Dict, lookup, insert, lookup-insert_self, lookup-insert_other}
use devops_agent.ToolFactory.Json.{Python}
use devops_agent.ToolFactory.Validation.{
  ToolDefinition, ToolStatus, approved, active, disabled, validate_tool_definition,
}
use devops_agent.ToolFactory.Repository.{
  ToolVersion, OrgTools, save_definition, save_version, set_version, set_active_version,
  versions_of, mark_active, first_active,
}

-- what an entry satisfies, if there is one
abbrev pub Holds {ℓ κ} : {A : Type ℓ} → (A → Type κ) → Option A → Type κ
Holds P none = Unit
Holds P (some a) = P a

-- the states of a tool that has been approved
abbrev pub is_released : ToolStatus → Bool
is_released approved = true
is_released active = true
is_released disabled = true
is_released _ = false

first_active-insert :
    (k : Text) (v : ToolVersion) (vs : Dict ToolVersion)
    → v.is_active ≡ false
    → first_active (insert k v vs) ≢ none
    → first_active vs ≢ none
unfolding first_active insert
first_active-insert k v [] idle h = ground (arith, h)
first_active-insert k v ((j, w) ∷ vs) idle h = ground (arith, h, first_active-insert k v vs idle)

module _ (py : Python) (u : Unicode) (IsApproved : Text → Type 0) where
  abbrev pub IsGood : Text → ToolDefinition → Type 0
  IsGood k d = (validate_tool_definition py u d ≡ []) × (is_released d.status ≡ true → IsApproved k)

  -- each definition is valid; a tool that is released or has an active version was approved
  abbrev pub IsSound : OrgTools → Type 0
  IsSound s =
      (k : Text)
      → Holds (IsGood k) (lookup k s.definitions)
        × (first_active (versions_of k s) ≢ none → IsApproved k)

  pub save-IsSound :
      (name : Text) (d : ToolDefinition) (s : OrgTools)
      → IsGood name d
      → IsSound s
      → IsSound (save_definition name d s)
  unfolding save_definition
  save-IsSound name d s good sound k = elim (Bool-cases (text_eq name k)) [
    | inl same ↦
        let e = text_eq→eq name k same in
        (rw (← e, lookup-insert_self name d s.definitions) good, (sound k).1)
    | inr other ↦ (rw (lookup-insert_other name k d s.definitions other) (sound k).0, (sound k).1)
  ]

  pub save_version-IsSound :
      (v : ToolVersion) (s : OrgTools)
      → v.is_active ≡ false
      → IsSound s
      → IsSound (save_version v s)
  unfolding save_version
  save_version-IsSound v s idle sound k = elim (Bool-cases (text_eq v.tool_name k)) [
    | inl same ↦
        let e = text_eq→eq v.tool_name k same in
        (
          (sound k).0,
          rw
              (
                ← e,
                lookup-insert_self v.tool_name (insert v.version v (versions_of v.tool_name s))
                    s.versions,
              )
              (λ h.
                (sound v.tool_name).1
                  (first_active-insert v.version v (versions_of v.tool_name s) idle h)),
        )
    | inr other ↦ (
      (sound k).0,
      rw
          (lookup-insert_other v.tool_name k (insert v.version v (versions_of v.tool_name s))
            s.versions other)
          (sound k).1,
    )
  ]

  mark-IsSound :
      (name : Text) (vs : Dict ToolVersion) (s : OrgTools)
      → IsApproved name
      → IsSound s
      → IsSound (record s { versions = insert name vs s.versions })
  mark-IsSound name vs s ok_name sound k = elim (Bool-cases (text_eq name k)) [
    | inl same ↦ ((sound k).0, λ h. rw (← text_eq→eq name k same) ok_name)
    | inr other ↦ ((sound k).0, rw (lookup-insert_other name k vs s.versions other) (sound k).1)
  ]

  set_version-IsSound :
      (name version : Text) (o : Option ToolDefinition) (s : OrgTools)
      → Holds (IsGood name) o
      → IsSound s
      → IsSound (set_version name version o s)
  unfolding set_version validate_tool_definition save_definition
  set_version-IsSound name version none s good sound = sound
  set_version-IsSound name version (some d) s good sound =
      save-IsSound name (record d { version = version }) s good sound

  pub set_active-IsSound :
      (name version : Text) (s : OrgTools)
      → IsApproved name
      → IsSound s
      → IsSound (set_active_version name version s)
  unfolding set_active_version
  set_active-IsSound name version s ok_name sound =
      let marked = mark-IsSound name (mark_active version (versions_of name s)) s ok_name sound in
      set_version-IsSound name version (lookup name s.definitions) _ (sound name).0 marked
