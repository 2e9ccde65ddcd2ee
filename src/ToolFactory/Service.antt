-- ===== src/ToolFactory/Service.antt =====
-- The life cycle of a tool (app/tool_factory/service.py). A raised exception keeps what was saved
-- before it, so the store comes back on errors too. The version in a payload is taken to be a text.
use devops_agent.Prelude.{
  Bool, true, false, Option, none, some, List, [], ◌∷◌, length, leb, if◌then◌else◌,
}
use devops_agent.Text.{Text, Unicode, codes}
use devops_agent.Regex.{Regex, cls, seq, star, chr, full_match}
use devops_agent.Dict.{lookup}
use devops_agent.ToolFactory.Json.{
  pos, Json, bool, num, str, arr, obj, nil, end, Fields, get_field, Python,
}
use devops_agent.ToolFactory.Validation.{
  ToolDefinition, ToolStatus, draft, validated, approved, rejected, Issue, duplicate, truthy,
  is_empty, validate_tool_definition,
}
use devops_agent.ToolFactory.Repository.{
  ToolVersion, OrgTools, save_definition, versions_of, save_version, get_active_version,
}

pub data ServiceError : Type 0 where
  invalid : List Issue → ServiceError
  not_found bad_version version_exists too_many_versions not_approvable not_approved
        no_active_version no_history no_prior_version :
      ServiceError

pub data Outcome {ℓ} (A : Type ℓ) : Type ℓ where
  ok : A → Outcome A
  err : ServiceError → Outcome A

abbrev pub field_or : Text → Json → Fields → Json
field_or k old payload = elim (get_field k payload) [ none ↦ old | (some v) ↦ v ]

abbrev pub or_text : Text → Option Text → Text
or_text old none = old
or_text old (some s) = s

abbrev pub or_json : Json → Json → Json
or_json a b = if truthy a then a else b

-- the definition that `create_tool` makes of a request
unfoldable pub new_definition : Option Text → Fields → Text → ToolDefinition
unfolding get_field truthy is_empty
new_definition version payload actor =
    let name = field_or (codes "name") (str []) payload in
    record {
      name = name;
      display_name = or_json (field_or (codes "display_name") (str []) payload) name;
      description = field_or (codes "description") (str []) payload;
      category = field_or (codes "category") (str (codes "general")) payload;
      version = or_text (codes "1.0.0") version;
      author =
          if is_empty actor
          then field_or (codes "author") (str (codes "unknown")) payload
          else str actor;
      input_schema = field_or (codes "input_schema") (obj end) payload;
      output_schema = field_or (codes "output_schema") (obj end) payload;
      execution_mode = field_or (codes "execution_mode") (str (codes "both")) payload;
      command_template = field_or (codes "command_template") (str []) payload;
      allowed_paths = field_or (codes "allowed_paths") (arr nil) payload;
      timeout_seconds = field_or (codes "timeout_seconds") (num (pos 10)) payload;
      max_output_bytes = field_or (codes "max_output_bytes") (num (pos 16384)) payload;
      required_permission =
          field_or (codes "required_permission") (str (codes "tools.execute")) payload;
      read_only = field_or (codes "read_only") (bool true) payload;
      enabled = false;
      status = draft;
    }

-- the new definition that `create_tool_version` makes of the present one
unfoldable pub updated_definition : Text → Fields → Text → ToolDefinition → ToolDefinition
unfolding get_field is_empty
updated_definition version payload actor d = record d {
  display_name = field_or (codes "display_name") d.display_name payload;
  description = field_or (codes "description") d.description payload;
  category = field_or (codes "category") d.category payload;
  version = version;
  author = if is_empty actor then d.author else str actor;
  input_schema = field_or (codes "input_schema") d.input_schema payload;
  output_schema = field_or (codes "output_schema") d.output_schema payload;
  execution_mode = field_or (codes "execution_mode") d.execution_mode payload;
  command_template = field_or (codes "command_template") d.command_template payload;
  allowed_paths = field_or (codes "allowed_paths") d.allowed_paths payload;
  timeout_seconds = field_or (codes "timeout_seconds") d.timeout_seconds payload;
  max_output_bytes = field_or (codes "max_output_bytes") d.max_output_bytes payload;
  required_permission = field_or (codes "required_permission") d.required_permission payload;
  read_only = field_or (codes "read_only") d.read_only payload;
}

abbrev pub version_label : Option ToolVersion → Text
version_label none = []
version_label (some v) = v.version

unfoldable pub snapshot_version :
    Text → ToolDefinition → Text → Text → OrgTools → Outcome ToolVersion × OrgTools
unfolding get_active_version save_version lookup
snapshot_version name d actor change_reason s =
    let v : ToolVersion = record {
      tool_name = name;
      version = d.version;
      definition = d;
      created_by = actor;
      previous_version = version_label (get_active_version name s);
      change_reason = change_reason;
      is_active = false;
    } in
    if leb 50 (length (versions_of name s))
    then (err too_many_versions, s)
    else (ok v, save_version v s)

-- the name of a validated definition
unfoldable pub name_text : Json → Text
name_text (str s) = s
name_text _ = []

unfoldable pub store_new :
    Text → ToolDefinition → Text → Option ToolDefinition → OrgTools → Outcome ToolVersion × OrgTools
unfolding save_definition snapshot_version
store_new name d actor (some existing) s = (err (invalid (duplicate ∷ [])), s)
store_new name d actor none s =
    let d' = record d { status = validated } in
    snapshot_version name d' actor (codes "initial version") (save_definition name d' s)

unfoldable pub if_valid {ℓ} :
    {A : Type ℓ} → List Issue → OrgTools → Outcome A × OrgTools → Outcome A × OrgTools
if_valid [] s rest = rest
if_valid (i ∷ is) s rest = (err (invalid (i ∷ is)), s)

unfoldable pub is_approvable : ToolStatus → Bool
is_approvable validated = true
is_approvable rejected = true
is_approvable _ = false

module _ (py : Python) (u : Unicode) where
  unfoldable pub create_tool :
      Option Text → Fields → Text → OrgTools → Outcome ToolVersion × OrgTools
  unfolding new_definition if_valid store_new name_text lookup
  create_tool version payload actor s =
      let d = new_definition version payload actor in
      let name = name_text d.name in
      if_valid (validate_tool_definition py u d) s
        (store_new name d actor (lookup name s.definitions) s)

  unfoldable pub approve_found :
      Text → Option ToolDefinition → OrgTools → Outcome (Unit {0}) × OrgTools
  unfolding if_valid is_approvable save_definition
  approve_found name none s = (err not_found, s)
  approve_found name (some d) s = if_valid (validate_tool_definition py u d) s (
      if is_approvable d.status
      then (ok tt, save_definition name (record d { status = approved }) s)
      else (err not_approvable, s))

  unfoldable pub approve_tool_definition : Text → OrgTools → Outcome (Unit {0}) × OrgTools
  unfolding approve_found lookup
  approve_tool_definition name s = approve_found name (lookup name s.definitions) s

  -- `^\d+\.\d+\.\d+$`
  unfoldable pub version_regex : Regex
  version_regex =
      let digits : Regex = seq (cls py.is_decimal) (star py.is_decimal) in
      seq digits (seq (chr b'.') (seq digits (seq (chr b'.') digits)))

  unfoldable pub store_version :
      Text
      → ToolDefinition
      → Text
      → Text
      → Option ToolVersion
      → OrgTools
      → Outcome ToolVersion × OrgTools
  unfolding save_definition snapshot_version
  store_version name d actor reason (some existing) s = (err version_exists, s)
  store_version name d actor reason none s =
      snapshot_version name d actor reason (save_definition name d s)

  unfoldable pub version_found :
      Text
      → Text
      → Fields
      → Text
      → Text
      → Option ToolDefinition
      → OrgTools
      → Outcome ToolVersion × OrgTools
  unfolding updated_definition if_valid store_version version_regex full_match lookup
  version_found name version payload actor reason none s = (err not_found, s)
  version_found name version payload actor reason (some current) s =
      let d = updated_definition version payload actor current in
      if full_match version_regex version
      then if_valid (validate_tool_definition py u d) s
          (store_version name d actor reason (lookup version (versions_of name s)) s)
      else (err bad_version, s)

  unfoldable pub create_tool_version :
      Text → Text → Fields → Text → Text → OrgTools → Outcome ToolVersion × OrgTools
  unfolding version_found lookup
  create_tool_version name version payload actor reason s =
      version_found name version payload actor reason (lookup name s.definitions) s

unfoldable pub reject_found :
    Text → Option ToolDefinition → OrgTools → Outcome (Unit {0}) × OrgTools
unfolding save_definition
reject_found name none s = (err not_found, s)
reject_found name (some d) s = (ok tt, save_definition name (record d { status = rejected }) s)

unfoldable pub reject_tool_definition : Text → OrgTools → Outcome (Unit {0}) × OrgTools
unfolding reject_found lookup
reject_tool_definition name s = reject_found name (lookup name s.definitions) s
