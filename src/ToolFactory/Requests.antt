-- ===== src/ToolFactory/Requests.antt =====
-- The operations of the service (app/tool_factory/service.py) as requests, and runs of them.
pub mod Valid
pub mod Created
pub mod Released
pub mod Approval
use devops_agent.Prelude.{Bool, true, false, Option, none, some, List, [], ◌∷◌, ◌++◌, if◌then◌else◌}
use devops_agent.Text.{Text, Unicode}
use devops_agent.ToolFactory.Json.{Fields, Python}
use devops_agent.ToolFactory.Repository.{OrgTools}
use devops_agent.ToolFactory.Service.{
  Outcome, ok, err, create_tool, approve_tool_definition, reject_tool_definition,
  create_tool_version,
}
use devops_agent.ToolFactory.Activation.{
  activate_tool_version, deactivate_tool_version, rollback_tool_version, set_enabled,
}

pub data ToolRequest : Type 0 where
  create : Option Text → Fields → Text → ToolRequest
  approve : Text → ToolRequest
  reject : Text → ToolRequest
  new_version : Text → Text → Fields → Text → Text → ToolRequest
  activate : Text → Text → Text → Text → ToolRequest
  deactivate : Text → Text → Text → ToolRequest
  roll_back : Text → Text → Text → ToolRequest
  enable : Text → Bool → ToolRequest

unfoldable pub no_tools : OrgTools
no_tools = record { definitions = []; versions = []; activations = []; audits = [] }

-- whether an operation went through
unfoldable pub succeeded {ℓ} : {A : Type ℓ} → Outcome A → Bool
succeeded (ok a) = true
succeeded (err e) = false

module _ (py : Python) (u : Unicode) where
  unfoldable pub serve : ToolRequest → OrgTools → OrgTools
  unfolding create_tool approve_tool_definition reject_tool_definition create_tool_version
      activate_tool_version deactivate_tool_version rollback_tool_version set_enabled
  serve (create version payload actor) s = (create_tool py u version payload actor s).1
  serve (approve name) s = (approve_tool_definition py u name s).1
  serve (reject name) s = (reject_tool_definition name s).1
  serve (new_version name version payload actor reason) s =
      (create_tool_version py u name version payload actor reason s).1
  serve (activate name version actor reason) s =
      (activate_tool_version name version actor reason s).1
  serve (deactivate name actor reason) s = (deactivate_tool_version name actor reason s).1
  serve (roll_back name actor reason) s = (rollback_tool_version name actor reason s).1
  serve (enable name enabled) s = (set_enabled name enabled s).1

  unfoldable pub serve_all : List ToolRequest → OrgTools → OrgTools
  unfolding serve
  serve_all [] s = s
  serve_all (r ∷ rs) s = serve_all rs (serve r s)

  -- the name that a request approves, if that goes through
  unfoldable pub approved_by : ToolRequest → OrgTools → List Text
  unfolding approve_tool_definition succeeded
  approved_by (approve name) s =
      if succeeded (approve_tool_definition py u name s).0 then name ∷ [] else []
  approved_by _ s = []

  -- the names whose approval went through
  unfoldable pub approvals : List ToolRequest → OrgTools → List Text
  unfolding serve approved_by
  approvals [] s = []
  approvals (r ∷ rs) s = approved_by r s ++ approvals rs (serve r s)
