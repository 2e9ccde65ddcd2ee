-- ===== src/Agent/Types.antt =====
-- The data of a turn of the agent (app/agent.py).
use devops_agent.Prelude.{Option, List}
use devops_agent.Text.{Text, Unicode}
use devops_agent.Dict.{Dict}

pub record ToolCall : Type 0 where
  pub name : Text
  pub arguments : Dict Text

-- what a tool call is answered with
pub data ToolReply (R : Type 0) : Type 0 where
  duplicate not_registered : ToolReply R
  executed : R → ToolReply R

pub data Message (R : Type 0) : Type 0 where
  system user : Text → Message R
  assistant : Text → List ToolCall → Message R
  tool : ToolCall → ToolReply R → Message R

-- a provider's answer
pub record Completion : Type 0 where
  pub content : Text
  pub tool_calls : List ToolCall

-- `execute_tool` gives the result of a call behind the calls that were executed before it
pub record AgentConfig (R : Type 0) : Type 0 where
  pub unicode : Unicode
  pub shown : Dict Text → Text
  pub chat : List (Message R) → Completion
  pub execute_tool : List ToolCall → ToolCall → R
  pub allowed_tool_names : Option (List Text)

-- the history, and the calls executed so far, in order
pub record Conversation (R : Type 0) : Type 0 where
  pub history : List (Message R)
  pub calls : List ToolCall

-- how a turn ends; `reported` is an answer worded from the result of a tool, and `broken` the
-- `StopIteration` of `next`
pub data Turn (R : Type 0) : Type 0 where
  answered : Text → Turn R
  reported : R → Turn R
  gave_up : Text → Turn R
  broken : Turn R
