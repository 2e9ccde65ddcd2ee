-- ===== src/ToolFactory/Examples.antt =====
-- The theorems of the tool factory at a concrete tool.
use devops_agent.Prelude.{◌≡◌, refl, ◌⊎◌, true, false, none, some, List, [], ◌∷◌}
use devops_agent.Text.{Text, codes, text_eq, is_digit, is_in}
use devops_agent.Dict.{lookup, insert}
use devops_agent.Whitelist.{compiled_patterns}
use devops_agent.ToolFactory.Json.{pos, bool, num, str, arr, obj, nil, Fields, end, field, Python}
use devops_agent.ToolFactory.Validation.{ToolDefinition, active, validate_tool_definition}
use devops_agent.ToolFactory.Repository.{OrgTools}
use devops_agent.ToolFactory.Requests.{
  ToolRequest, create, approve, activate, no_tools, serve_all, approvals,
}
use devops_agent.ToolFactory.Requests.Valid.{is_released}
use devops_agent.ToolFactory.Requests.Approval.{serve_all-no_tools}
use devops_agent.ToolFactory.Execution.{Runner, execute_tool}
use devops_agent.ToolFactory.Execution.Safe.{MayRun, execute_tool-MayRun, serve_all-execute_tool}
use devops_agent.Text.{is_space, ascii_word, lower_text, strip, tokens}
use devops_agent.ToolFactory.Schema.{fields_problems}
use devops_agent.ToolFactory.Template.{allowed_binaries, denied_tokens}
use devops_agent.Samples.{ascii}

-- an interpreter for schemas that compare nothing and search nothing
abbrev plain_python : Python
plain_python = record {
  below = λ a b. false;
  contains = λ c v. none;
  search = λ p s. none;
  compiles = λ p. true;
  show = λ n. codes "1";
  is_decimal = is_digit;
}

abbrev docker_ps : Fields
docker_ps = field (codes "name") (str (codes "list_containers")) (
    field (codes "description") (str (codes "All containers"))
      (field (codes "command_template") (str (codes "docker ps -a")) end))

abbrev life : List ToolRequest
life =
    create none docker_ps (codes "ann")
    ∷ approve (codes "list_containers")
    ∷ activate (codes "list_containers") (codes "1.0.0") (codes "ann") []
    ∷ []

abbrev quiet_runner : Runner
quiet_runner = record {
  ssh_configured = true;
  run = λ log c. record { success = true; exit_code = some 0; error = [] };
}

abbrev quiet_tool : ToolDefinition
quiet_tool = record {
  name = str (codes "list_containers");
  display_name = str (codes "list_containers");
  description = str (codes "All containers");
  category = str (codes "general");
  version = codes "1.0.0";
  author = str (codes "ann");
  input_schema = obj end;
  output_schema = obj end;
  execution_mode = str (codes "both");
  command_template = str (codes "docker ps -a");
  allowed_paths = arr nil;
  timeout_seconds = num (pos 10);
  max_output_bytes = num (pos 16384);
  required_permission = str (codes "tools.execute");
  read_only = bool true;
  enabled = true;
  status = active;
}

abbrev one_tool : OrgTools
one_tool = record {
  definitions = (codes "list_containers", quiet_tool) ∷ [];
  versions = [];
  activations = [];
  audits = [];
}

-- the run above ends with the tool in this state
life_runs :
    lookup (codes "list_containers") (serve_all plain_python ascii life no_tools).definitions
    ≡ some quiet_tool
unfolding text_eq is_space ascii_word lower_text strip tokens insert fields_problems
    allowed_binaries denied_tokens validate_tool_definition no_tools serve_all
life_runs = refl

serve_all-no_tools_example :
    (validate_tool_definition plain_python ascii quiet_tool ≡ [])
    × (is_released active ≡ true
        → is_in (codes "list_containers") (approvals plain_python ascii life no_tools) ≡ true)
serve_all-no_tools_example =
    serve_all-no_tools plain_python ascii life (codes "list_containers") quiet_tool life_runs

execute_tool-MayRun_example :
    ((execute_tool plain_python compiled_patterns ascii quiet_runner
        (codes "list_containers")
        end
        (codes "ann")
        (λ p. true)
        one_tool
        []).2
      ≡ [])
    ⊎ ((d : ToolDefinition) × (c : Text) × (lookup (codes "list_containers") one_tool.definitions
          ≡ some d)
        × MayRun plain_python compiled_patterns ascii (λ p. true) end d c
        × ((execute_tool plain_python compiled_patterns ascii quiet_runner
              (codes "list_containers")
              end
              (codes "ann")
              (λ p. true)
              one_tool
              []).2
            ≡ c ∷ []))
execute_tool-MayRun_example =
    execute_tool-MayRun plain_python compiled_patterns ascii quiet_runner (codes "list_containers")
      end (codes "ann") (λ p. true) one_tool []

serve_all-execute_tool_example :
    ((execute_tool plain_python compiled_patterns ascii quiet_runner
        (codes "list_containers")
        end
        (codes "ann")
        (λ p. true)
        (serve_all plain_python ascii life no_tools)
        []).2
      ≡ [])
    ⊎ ((d : ToolDefinition) × (c : Text) × (lookup
            (codes "list_containers")
            (serve_all plain_python ascii life no_tools).definitions
          ≡ some d)
        × (validate_tool_definition plain_python ascii d ≡ [])
        × (is_in (codes "list_containers") (approvals plain_python ascii life no_tools) ≡ true)
        × MayRun plain_python compiled_patterns ascii (λ p. true) end d c
        × ((execute_tool plain_python compiled_patterns ascii quiet_runner
              (codes "list_containers")
              end
              (codes "ann")
              (λ p. true)
              (serve_all plain_python ascii life no_tools)
              []).2
            ≡ c ∷ []))
serve_all-execute_tool_example =
    serve_all-execute_tool plain_python compiled_patterns ascii quiet_runner
      (codes "list_containers") end (codes "ann") (λ p. true) life []

-- the version 1.0.1 runs another command
abbrev docker_images : Fields
docker_images = field (codes "command_template") (str (codes "docker images")) end
