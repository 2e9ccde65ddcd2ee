-- ===== src/ToolFactory/Execution.antt =====
-- Execution of a tool (app/tool_factory/execution.py). The runner and the configuration are parameters;
-- redaction and previews of the output are not modelled. `log` is what was given to the runner, the
-- newest first. The arguments are taken to be a dict, as the API's body has them.
pub mod Safe
use devops_agent.Prelude.{
  ℕ, ◌+◌, ◌-◌, zero, suc, Bool, true, false, ◌&&◌, ◌||◌, not, Option, none, some, List, [], ◌∷◌,
  ◌++◌, any, length, leb, take, ◌==◌, if◌then◌else◌,
}
use devops_agent.Text.{Text, Unicode, codes, text_eq, starts_with}
use devops_agent.Regex.{full_match, repeat1}
use devops_agent.Dict.{Dict, lookup, insert}
use devops_agent.Whitelist.{Item, is_slot_char, is_command_allowed}
use devops_agent.ToolFactory.Json.{
  Number, pos, neg, float, Json, null, bool, num, str, arr, obj, Fields, get_field, Python,
}
use devops_agent.ToolFactory.Schema.{Problem, raises}
use devops_agent.ToolFactory.Input.{validate_input}
use devops_agent.ToolFactory.Template.{pieces, placeholders}
use devops_agent.ToolFactory.Validation.{ToolDefinition, ToolStatus, active}
use devops_agent.ToolFactory.Repository.{
  ToolVersion, AuditRecord, OrgTools, get_active_version, record_audit,
}
use devops_agent.ToolFactory.Service.{name_text}

pub record RunResult : Type 0 where
  pub success : Bool
  pub exit_code : Option ℕ
  pub error : Text

pub record Runner : Type 0 where
  pub ssh_configured : Bool
  pub run : List Text → Text → RunResult

pub data ExecutionError : Type 0 where
  tool_not_found tool_not_active permission_denied invalid_input command_rejected mode_unavailable :
      ExecutionError

pub data Executed : Type 0 where
  done : Bool → Text → Executed
  refused : ExecutionError → Executed

-- `text.replace(old, new)`; `skip` counts the characters of a match that are still to be dropped
unfoldable pub replace_from : Text → Text → ℕ → Text → Text
replace_from old new skip [] = []
replace_from old new (suc skip) (c ∷ s) = replace_from old new skip s
replace_from old new zero (c ∷ s) =
    let matched = replace_from old new (length old - 1) s in
    let other = replace_from old new zero s in
    if starts_with old (c ∷ s) then new ++ matched else c ∷ other

unfoldable pub replace : Text → Text → Text → Text
unfolding replace_from
replace old new s = replace_from old new 0 s

-- a character that the check of the resolved command finds
unfoldable pub is_forbidden_char : ℕ → Bool
unfolding any
is_forbidden_char c =
    any (λ m. m == c) (codes ";|&$`()<>{}!") || (c == 92) || (c == 10) || (c == 13) || (c == 9)

module _ (py : Python) (u : Unicode) where
  -- `none` is a `ValueError`
  unfoldable pub validate_argument_value : Json → Option Text
  unfolding is_slot_char full_match
  validate_argument_value (num (pos n)) = if leb n 100000 then some (py.show n) else none
  validate_argument_value (str s) =
      if full_match (repeat1 (is_slot_char u) 127) s then some s else none
  validate_argument_value _ = none

  unfoldable pub argument_for : Text → Fields → Option Text
  unfolding validate_argument_value get_field
  argument_for name arguments = elim (get_field name arguments) [
    | none ↦ none
    | (some v) ↦ validate_argument_value v
  ]

  -- the loop over the placeholders
  unfoldable pub substitute : List Text → Fields → Text → Option Text
  unfolding argument_for replace
  substitute [] arguments command = some command
  substitute (name ∷ names) arguments command = elim (argument_for name arguments) [
    | none ↦ none
    | (some value) ↦
        substitute names arguments (replace (codes "{" ++ name ++ codes "}") value command)
  ]

  unfoldable pub clean : Option Text → Option Text
  unfolding is_forbidden_char any
  clean none = none
  clean (some command) = if any is_forbidden_char command then none else some command

  -- `_build_command`, for a template that is a text
  unfoldable pub build_command : Text → Fields → Option Text
  unfolding substitute clean pieces placeholders
  build_command template arguments =
      clean (substitute (placeholders (pieces template)) arguments template)

-- `success` and the error code of a result
unfoldable pub is_success : RunResult → Bool
is_success r = r.success && elim r.exit_code [ none ↦ false | (some n) ↦ n == 0 ]

unfoldable pub error_code : RunResult → Text
unfolding is_success
error_code r =
    if is_success r
    then []
    else elim r.error [ [] ↦ codes "execution_failed" | (c ∷ s) ↦ take 120 (c ∷ s) ]

unfoldable pub run_audited :
    Runner
    → Text
    → Text
    → ToolVersion
    → Text
    → OrgTools
    → List Text
    → Executed × OrgTools × List Text
unfolding is_success error_code record_audit
run_audited runner name user_id v command s log =
    let r = runner.run log command in
    let audit : AuditRecord = record {
      tool_version = v.version;
      user_id = user_id;
      success = is_success r;
      error_code = error_code r;
    } in
    (done (is_success r) (error_code r), record_audit name audit s, command ∷ log)

unfoldable pub is_ssh : Json → Bool
is_ssh (str s) = text_eq s (codes "ssh")
is_ssh _ = false

-- steps 5 to 8: the whitelist, the mode, and the run
unfoldable pub gated :
    List (List Item)
    → Unicode
    → Runner
    → Text
    → Text
    → ToolDefinition
    → ToolVersion
    → Option Text
    → OrgTools
    → List Text
    → Executed × OrgTools × List Text
unfolding run_audited is_ssh
gated patterns u runner name user_id d v none s log = (refused invalid_input, s, log)
gated patterns u runner name user_id d v (some command) s log =
    if is_command_allowed u patterns command
    then (if is_ssh d.execution_mode && not runner.ssh_configured
        then (refused mode_unavailable, s, log)
        else run_audited runner name user_id v command s log)
    else (refused command_rejected, s, log)

unfoldable pub is_active : ToolStatus → Bool
is_active active = true
is_active _ = false

-- steps 1 to 4: the state of the tool, the permission, the arguments, and the command
unfoldable pub checked :
    Python
    → List (List Item)
    → Unicode
    → Runner
    → Text
    → Fields
    → Text
    → (Json → Bool)
    → Option ToolDefinition
    → Option ToolVersion
    → OrgTools
    → List Text
    → Executed × OrgTools × List Text
unfolding gated is_active build_command validate_input name_text
checked py patterns u runner name arguments user_id role_can none v s log =
    (refused tool_not_found, s, log)
checked py patterns u runner name arguments user_id role_can (some d) none s log =
    (refused tool_not_active, s, log)
checked py patterns u runner name arguments user_id role_can (some d) (some v) s log =
    if is_active d.status && d.enabled
    then (if role_can d.required_permission
        then elim (validate_input py d.input_schema (obj arguments)) [
          | [] ↦
              gated patterns u runner name user_id d v
                (build_command py u (name_text d.command_template) arguments) s log
          | (p ∷ ps) ↦ (refused invalid_input, s, log)
        ]
        else (refused permission_denied, s, log))
    else (refused tool_not_active, s, log)

unfoldable pub execute_tool :
    Python
    → List (List Item)
    → Unicode
    → Runner
    → Text
    → Fields
    → Text
    → (Json → Bool)
    → OrgTools
    → List Text
    → Executed × OrgTools × List Text
unfolding checked get_active_version lookup
execute_tool py patterns u runner name arguments user_id role_can s log =
    checked py patterns u runner name arguments user_id role_can (lookup name s.definitions)
      (get_active_version name s) s log
