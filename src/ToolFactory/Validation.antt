-- ===== src/ToolFactory/Validation.antt =====
-- Validation of tool definitions (app/tool_factory/validation.py). An issue is its code; `raised` is an
-- exception that leaves the validator. Checksums are not modelled: nothing compares them.
use devops_agent.Prelude.{
  ℕ, Bool, true, false, ◌&&◌, ◌||◌, not, Option, none, some, List, [], ◌∷◌, ◌++◌, map, any, length,
  ltb, leb, take, ◌==◌, ◌^◌, if◌then◌else◌, keep_if,
}
use devops_agent.Text.{
  Text, Unicode, codes, is_in, is_lower, is_digit, lower_text, strip, tokens, found_in, split_on,
}
use devops_agent.Dict.{lookup}
use devops_agent.Regex.{Regex, cls, seq, star, chr, full_match, upto}
use devops_agent.ToolFactory.Json.{
  pos, neg, float, Json, null, bool, num, str, arr, obj, nil, end, get_field, field_names,
  items_list, Python,
}
use devops_agent.ToolFactory.Schema.{Problem, raises, validate_schema}
use devops_agent.ToolFactory.Template.{
  allowed_binaries, denied_tokens, is_shell_meta, pieces, mask, placeholders, first_subcommand,
  is_allowed_subcommand,
}

pub data ToolStatus : Type 0 where
  draft validated approved rejected active disabled : ToolStatus

-- The fields hold what the request gave; the version is taken to be a text.
pub record ToolDefinition : Type 0 where
  pub name : Json
  pub display_name : Json
  pub description : Json
  pub category : Json
  pub version : Text
  pub author : Json
  pub input_schema : Json
  pub output_schema : Json
  pub execution_mode : Json
  pub command_template : Json
  pub allowed_paths : Json
  pub timeout_seconds : Json
  pub max_output_bytes : Json
  pub required_permission : Json
  pub read_only : Json
  pub enabled : Bool
  pub status : ToolStatus

pub data Issue : Type 0 where
  invalid_name not_object invalid_schema empty_template too_long shell_metacharacters denied_token
        too_complex binary_not_allowed subcommand_not_allowed undeclared_placeholder not_list
        too_many invalid_path path_traversal path_not_in_template invalid_mode invalid_timeout
        invalid_limit must_be_read_only empty_text duplicate :
      Issue
  raised : Issue

abbrev pub issue_if : Bool → Issue → List Issue
issue_if bad i = if bad then i ∷ [] else []

-- `^[a-z][a-z0-9_]{2,63}$`
unfoldable pub tool_name_regex : Regex
unfolding is_lower is_digit
tool_name_regex =
    let rest : Regex = cls (λ c. is_lower c || is_digit c || (c == b'_')) in
    seq (cls is_lower) (seq rest (seq rest (upto 61 rest)))

unfoldable pub validate_tool_name : Json → List Issue
unfolding tool_name_regex full_match
validate_tool_name (str s) = issue_if (not (full_match tool_name_regex s)) invalid_name
validate_tool_name _ = invalid_name ∷ []

unfoldable pub schema_issue : Problem → Issue
schema_issue raises = raised
schema_issue _ = invalid_schema

unfoldable pub schema_issues : Python → Json → List Issue
unfolding validate_schema schema_issue
schema_issues py (obj fs) = map schema_issue (validate_schema py (obj fs))
schema_issues py _ = not_object ∷ []

-- `bool(v)`
unfoldable pub truthy : Json → Bool
truthy null = false
truthy (bool b) = b
truthy (num (pos n)) = not (n == 0)
truthy (num (neg n)) = true
truthy (num (float n)) = not ((n == 0) || (n == 2 ^ 63))
truthy (str []) = false
truthy (arr nil) = false
truthy (obj end) = false
truthy _ = true

-- the keys of `input_schema.get("properties") or {}`
unfoldable pub property_names : Option Json → Option (List Text)
unfolding field_names truthy
property_names none = some []
property_names (some (obj fs)) = some (field_names fs)
property_names (some v) = if truthy v then none else some []

unfoldable pub declared_names : Json → Option (List Text)
unfolding property_names get_field
declared_names (obj fs) = property_names (get_field (codes "properties") fs)
declared_names _ = some []

unfoldable pub placeholder_issues : Option (List Text) → List Text → List Issue
unfolding is_in keep_if
placeholder_issues none names = raised ∷ []
placeholder_issues (some declared) names =
    map (λ name. undeclared_placeholder) (keep_if (λ name. not (is_in name declared)) names)

unfoldable pub subcommand_issues : Option (List Text) → List Text → List Issue
unfolding first_subcommand is_allowed_subcommand
subcommand_issues none words = binary_not_allowed ∷ []
subcommand_issues (some prefixes) words =
    issue_if (not (is_allowed_subcommand prefixes (first_subcommand words))) subcommand_not_allowed

unfoldable pub binary_issues : List Text → List Issue
unfolding subcommand_issues lookup
binary_issues [] = []
binary_issues (binary ∷ words) = subcommand_issues (lookup binary allowed_binaries) words

-- the checks of a template that is stripped and not empty
unfoldable pub template_issues : Unicode → Text → Json → List Issue
unfolding binary_issues placeholder_issues declared_names is_shell_meta mask pieces placeholders
    found_in keep_if any
template_issues u template input_schema =
    issue_if (ltb 500 (length template)) too_long
    ++ issue_if (any is_shell_meta (mask (pieces template))) shell_metacharacters
    ++ map (λ token. denied_token)
        (keep_if (λ token. found_in token (lower_text u template)) denied_tokens)
    ++ issue_if (ltb 24 (length (tokens template))) too_complex
    ++ binary_issues (tokens template)
    ++ placeholder_issues (declared_names input_schema) (placeholders (pieces template))

unfoldable pub stripped_issues : Unicode → Text → Json → List Issue
unfolding template_issues
stripped_issues u [] input_schema = empty_template ∷ []
stripped_issues u (c ∷ s) input_schema = template_issues u (c ∷ s) input_schema

unfoldable pub validate_command_template : Unicode → Json → Json → List Issue
unfolding stripped_issues
validate_command_template u (str s) input_schema = stripped_issues u (strip s) input_schema
validate_command_template u _ input_schema = empty_template ∷ []

-- `^/[\w./\-]*$`
unfoldable pub path_regex : Unicode → Regex
path_regex u = seq (chr b'/') (star (λ c. u.is_word c || (c == b'.') || (c == b'/') || (c == b'-')))

unfoldable pub path_issues : Unicode → Json → List Issue
unfolding path_regex full_match is_in split_on
path_issues u (str path) =
    if full_match (path_regex u) path
    then issue_if (is_in (codes "..") (split_on b'/' path)) path_traversal
    else invalid_path ∷ []
path_issues u _ = invalid_path ∷ []

unfoldable pub all_path_issues : Unicode → List Json → List Issue
unfolding path_issues
all_path_issues u [] = []
all_path_issues u (p ∷ ps) = path_issues u p ++ all_path_issues u ps

-- `path in command_template`
unfoldable pub path_in : Python → Json → Json → Option Bool
unfolding found_in
path_in py (str template) (str path) = some (found_in path template)
path_in py template path = py.contains template path

-- `any(…)`, which stops at the first one found
unfoldable pub any_path_in : Python → Json → List Json → Option Bool
unfolding path_in
any_path_in py template [] = some false
any_path_in py template (p ∷ ps) =
    let rest = any_path_in py template ps in
    elim (path_in py template p) [ none ↦ none | (some found) ↦ if found then some true else rest ]

unfoldable pub listed_issues : Python → Unicode → List Json → Json → List Issue
unfolding all_path_issues any_path_in truthy
listed_issues py u [] template = []
listed_issues py u (p ∷ ps) template =
    issue_if (ltb 10 (length (p ∷ ps))) too_many
    ++ all_path_issues u (take 10 (p ∷ ps))
    ++ (if truthy template
        then elim (any_path_in py template (p ∷ ps)) [
          | none ↦ raised ∷ []
          | (some found) ↦ issue_if (not found) path_not_in_template
        ]
        else [])

unfoldable pub validate_allowed_paths : Python → Unicode → Json → Json → List Issue
unfolding listed_issues items_list
validate_allowed_paths py u null template = []
validate_allowed_paths py u (arr paths) template = listed_issues py u (items_list paths) template
validate_allowed_paths py u _ template = not_list ∷ []

unfoldable pub validate_execution_mode : Json → List Issue
unfolding is_in any
validate_execution_mode (str mode) =
    issue_if (not (is_in mode (codes "local" ∷ codes "ssh" ∷ codes "both" ∷ []))) invalid_mode
validate_execution_mode _ = invalid_mode ∷ []

-- an `int` that is no `bool`, within the bounds
unfoldable pub is_between : ℕ → ℕ → Json → Bool
is_between low high (num (pos n)) = leb low n && leb n high
is_between low high _ = false

unfoldable pub validate_bounds : Json → Json → List Issue
unfolding is_between
validate_bounds timeout max_output =
    issue_if (not (is_between 1 60 timeout)) invalid_timeout
    ++ issue_if (not (is_between 256 65536 max_output)) invalid_limit

unfoldable pub validate_read_only : Json → List Issue
validate_read_only (bool b) = issue_if (not b) must_be_read_only
validate_read_only _ = must_be_read_only ∷ []

unfoldable pub is_empty : Text → Bool
is_empty [] = true
is_empty (c ∷ s) = false

unfoldable pub validate_filled : Json → List Issue
unfolding is_empty
validate_filled (str s) = issue_if (is_empty (strip s)) empty_text
validate_filled _ = empty_text ∷ []

unfoldable pub validate_tool_definition : Python → Unicode → ToolDefinition → List Issue
unfolding validate_tool_name schema_issues validate_command_template validate_allowed_paths
    validate_execution_mode validate_bounds validate_read_only validate_filled
validate_tool_definition py u d =
    validate_tool_name d.name
    ++ schema_issues py d.input_schema
    ++ schema_issues py d.output_schema
    ++ validate_command_template u d.command_template d.input_schema
    ++ validate_allowed_paths py u d.allowed_paths d.command_template
    ++ validate_execution_mode d.execution_mode
    ++ validate_bounds d.timeout_seconds d.max_output_bytes
    ++ validate_read_only d.read_only
    ++ validate_filled d.description
    ++ validate_filled d.category
    ++ validate_filled d.required_permission
