-- ===== src/ToolFactory/Versions.antt =====
-- A new version of a tool (`create_tool_version` of app/tool_factory/service.py) and the tool in use.
use devops_agent.Text.{Text}
use devops_agent.Dict.{Dict}
