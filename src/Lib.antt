-- ===== src/Lib.antt =====
-- JARVIS, an AI DevOps agent (app/): an LLM asks for tools and actions as structured data, and the
-- program decides what reaches a host. This library models the decisions and the state behind them.
--
-- How the parts interact. The agent (app/agent.py) asks the model and executes the tool calls it
-- returns; the tool `run_diagnostic` is the control loop. A text that is to run on a host passes the
-- SSH whitelist (app/ssh_whitelist.py) inside the executor (app/executor.py); the control loop
-- (app/control/) scores the risk of a planned action, asks the operator, executes it, verifies the
-- outcome through read-only commands and may roll it back by a restart, unasked. Monitoring (app/monitoring/) turns
-- anomalies into incidents, one for a fingerprint, and keeps alerts apart by cooldowns. The LLM
-- router (app/llm_router.py) chooses among the model providers. The task manager
-- (app/api/task_manager.py) tracks long operations and their cancellation. The tool factory
-- (app/tool_factory/) keeps tools that users define, and runs those that are approved and active.
-- The terminals (app/terminal/) are SSH sessions that the browser reads from; app/auth.py lets the
-- browser in.
--
-- Files.
--   Prelude, Text, Regex: shared names and lemmas; `str` as a list of code points; the part of `re`
--     that the patterns use, with its meaning (Regex/Language, Regex/Repeat).
--   Whitelist: app/ssh_whitelist.py, `_pattern_to_regex`, `is_command_allowed`,
--     `is_action_command_allowed`; Whitelist/Registry: `register_readonly_pattern`.
--   Control/State, Control/Session: app/control/state.py and the timeline of app/control/incident.py.
--   Control/Policy, Risk, Permissions, Actions, Rollback, Verification: the files of app/control with
--     these names. Control/Host: `run_command` and `run_action_command` of app/executor.py.
--   Control/Evidence: `_collect_evidence` of app/control/controller.py, with the stop conditions of
--     app/control/planner.py.
--   Control/Loop: `_execute_action_flow` of app/control/controller.py; Control/Recovery: its part behind
--     an execution.
--   Control/Planner: `_extract_keywords` and `plan_diagnostic_steps` of app/control/planner.py.
--   Dict: `dict` in insertion order.
--   Monitoring/Cooldown: app/monitoring/cooldown.py, with the part of `run_cycle` in
--     app/monitoring/engine.py that asks it. Monitoring/Incidents, Monitoring/Deduplication: the
--     incident store and `find_or_create_incident`, over app/monitoring/models.py and thresholds.py.
--   Agent: `Agent.run` of app/agent.py: one round (Agent), the whole turn with its shortcuts (Agent/Run).
--     Agent/Context: `bound_history` of app/context_budget.py.
--   Control/Loop/Guard: the histories of calls that the flow may leave, and the mutations in them.
--   Router: `ProviderState` and `_find_next_provider` of app/llm_router.py, from the primary index on;
--     Router/Errors: `_classify_error`; Router/Chat: `LLMRouter.chat`, where an error of the record of
--     usage makes an answer a failure.
--   Terminal/Session, Manager: `TerminalSession` of app/terminal/session.py, app/terminal/manager.py.
--     Terminal/Output: `read_output`, and `read_ssh_output` of app/terminal/routes.py, whose rounds and
--     those of the reader thread come in any order.
--   Accounts: app/auth.py, without a database.
--   ToolFactory/Schema and Input: app/tool_factory/schema.py. ToolFactory/Template and Validation:
--     validation.py. ToolFactory/Repository, Service, Activation: repository.py and service.py;
--     ToolFactory/Requests: runs of the service. ToolFactory/Execution: execution.py.
--   Tasks: `TaskManager` of app/api/task_manager.py.
--   Samples and the modules named Examples: concrete values, tests and witnesses.
--
-- State and effects. Mutable objects are records that are passed and returned. What is outside the
-- program is a parameter: the Unicode database (Text, `Unicode`), the executor's answers and the
-- operator's (Control/Host, `Host`), which may depend on the whole history of calls. A Python
-- exception is a constructor of the result.
--
-- Bounds. Most loops are structural: on a text, on a list, or on the attempts that remain (three in
-- `verify_action`, eight in a turn of the agent). Some `while` loops run on fuel: the collection of
-- fallback providers, on the number of providers, and the frames of a terminal, on the number of
-- chunks received; so does the cut of the history, on its length.
--
-- Times and new identifiers are arguments of the operations.
--
-- Not modelled: most prose (reasons, prompts, log lines), the network and the processes. Scores of
-- app/control/risk.py are exact hundredths; the floats of the source differ from them by rounding,
-- which shows only where a sum lies exactly on a threshold.
pub mod Prelude
pub mod Text
pub mod Regex
pub mod Dict
pub mod Whitelist
pub mod Control
pub mod Monitoring
pub mod Router
pub mod Terminal
pub mod Agent
pub mod Accounts
pub mod ToolFactory
pub mod Tasks
pub mod Samples
