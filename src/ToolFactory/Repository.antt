-- ===== src/ToolFactory/Repository.antt =====
-- The repository of the tool factory (app/tool_factory/repository.py), in memory: one organisation's
-- part of its four dicts, since every query names the organisation. Times are not modelled.
use devops_agent.Prelude.{
  ℕ, Bool, Option, none, some, List, [], ◌∷◌, ◌++◌, length, ltb, if◌then◌else◌,
}
use devops_agent.Text.{Text, text_eq}
use devops_agent.Dict.{Dict, lookup, insert}
use devops_agent.ToolFactory.Validation.{ToolDefinition}

pub record ToolVersion : Type 0 where
  pub tool_name : Text
  pub version : Text
  pub definition : ToolDefinition
  pub created_by : Text
  pub previous_version : Text
  pub change_reason : Text
  pub is_active : Bool

pub data ActivationAction : Type 0 where
  activated deactivated rolled_back : ActivationAction

pub record ActivationRecord : Type 0 where
  pub version : Text
  pub action : ActivationAction
  pub actor : Text
  pub reason : Text
  pub previous_version : Text

pub record AuditRecord : Type 0 where
  pub tool_version : Text
  pub user_id : Text
  pub success : Bool
  pub error_code : Text

pub record OrgTools : Type 0 where
  pub definitions : Dict ToolDefinition
  pub versions : Dict (Dict ToolVersion)
  pub activations : Dict (List ActivationRecord)
  pub audits : Dict (List AuditRecord)

unfoldable pub save_definition : Text → ToolDefinition → OrgTools → OrgTools
save_definition name d s = record s { definitions = insert name d s.definitions }

abbrev pub or_nothing {ℓ} : {A : Type ℓ} → Option (List A) → List A
or_nothing none = []
or_nothing (some xs) = xs

abbrev pub versions_of : Text → OrgTools → Dict ToolVersion
versions_of name s = or_nothing (lookup name s.versions)

unfoldable pub save_version : ToolVersion → OrgTools → OrgTools
save_version v s = record s {
  versions = insert v.tool_name (insert v.version v (versions_of v.tool_name s)) s.versions;
}

unfoldable pub first_active : Dict ToolVersion → Option ToolVersion
first_active [] = none
first_active ((k, v) ∷ vs) = if v.is_active then some v else first_active vs

unfoldable pub get_active_version : Text → OrgTools → Option ToolVersion
unfolding first_active lookup
get_active_version name s = first_active (versions_of name s)

-- `candidate.active = candidate.version == version`, for every version of the tool
unfoldable pub mark_active : Text → Dict ToolVersion → Dict ToolVersion
mark_active version [] = []
mark_active version ((k, v) ∷ vs) =
    (k, record v { is_active = text_eq v.version version }) ∷ mark_active version vs

-- the end of `set_active_version`; a tool without a definition has none to change
unfoldable pub set_version : Text → Text → Option ToolDefinition → OrgTools → OrgTools
set_version name version none s = s
set_version name version (some d) s = record s {
  definitions = insert name (record d { version = version }) s.definitions;
}

-- `set_active_version` for a version that is there
unfoldable pub set_active_version : Text → Text → OrgTools → OrgTools
unfolding mark_active set_version lookup
set_active_version name version s =
    set_version name version (lookup name s.definitions)
      (record s { versions = insert name (mark_active version (versions_of name s)) s.versions })

unfoldable pub record_activation : Text → ActivationRecord → OrgTools → OrgTools
record_activation name r s = record s {
  activations = insert name (or_nothing (lookup name s.activations) ++ r ∷ []) s.activations;
}

-- `del records[:-n]`
unfoldable pub keep_last {ℓ} : {A : Type ℓ} → ℕ → List A → List A
keep_last n [] = []
keep_last n (x ∷ xs) = let rest = keep_last n xs in if ltb n (length (x ∷ xs)) then rest else x ∷ xs

unfoldable pub record_audit : Text → AuditRecord → OrgTools → OrgTools
unfolding keep_last
record_audit name r s = record s {
  audits = insert name (keep_last 200 (or_nothing (lookup name s.audits) ++ r ∷ [])) s.audits;
}
