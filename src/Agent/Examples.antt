-- ===== src/Agent/Examples.antt =====
-- The theorems of the agent at a concrete turn and at concrete rounds.
use devops_agent.Prelude.{
  ℕ, ◌+◌, length, map, ◌≤◌, ◌≡◌, refl, none, some, List, [], ◌∷◌, ◌++◌, arith,
}
use devops_agent.Text.{Text, codes, text_eq, is_space, is_upper}
use devops_agent.Dict.{Dict}
use devops_agent.Samples.{ascii}
use devops_agent.Agent.{
  ToolCall, Message, user, assistant, Completion, AgentConfig, Conversation, scan, goes_on, ends,
  broken, round, immediate_restart,
}
use devops_agent.Agent.Run.{TurnConfig, run}
use devops_agent.Agent.Once.{Once}
use devops_agent.Agent.Allowed.{MayExecute, run-MayExecute}
use devops_agent.Agent.Replies.{Answer, round-Answer, round-broken}
use devops_agent.Agent.Context.{HistoryItem, is_system, truncated, bound_history}
use devops_agent.Agent.Context.Kept.{newest, Fits, bound_history_kept}

abbrev show_values : Dict Text → Text
show_values [] = []
show_values ((key, value) ∷ rest) = key ++ (58 ∷ value ++ show_values rest)

abbrev status_call : ToolCall
status_call = record { name = codes "docker_status"; arguments = [] }

abbrev restart_call : ToolCall
restart_call = record {
  name = codes "run_diagnostic";
  arguments = (codes "mode", codes "immediate") ∷ (codes "request", codes "restart web") ∷ [];
}

-- the same call twice, and one that no tool is registered for
abbrev three_calls : Completion
three_calls = record {
  content = [];
  tool_calls =
      status_call ∷ status_call ∷ record { name = codes "container_stats"; arguments = [] } ∷ [];
}

abbrev restart_and_status : Completion
restart_and_status = record { content = []; tool_calls = status_call ∷ restart_call ∷ [] }

abbrev agent : AgentConfig Text
agent = record {
  unicode = ascii;
  shown = show_values;
  chat = λ history. three_calls;
  execute_tool = λ earlier tc. tc.name;
  allowed_tool_names = some (codes "docker_status" ∷ codes "run_diagnostic" ∷ []);
}

abbrev config : TurnConfig Text
config = record {
  memory_command = λ text. none;
  system_prompt = λ text. text;
  shortcut_answer = λ name result. result;
}

abbrev fresh_turn : Conversation Text
fresh_turn = record { history = user (codes "is web fine") ∷ []; calls = [] }

run-MayExecute_example :
    Once agent (run agent config (codes "is web fine") []).1.calls
    × MayExecute agent config
        (codes "is web fine")
        (run agent config (codes "is web fine") []).1.calls
run-MayExecute_example = run-MayExecute agent config (codes "is web fine") []

round-Answer_example :
    (messages : List (Message Text)) × ((round agent three_calls [] fresh_turn).1.history
      ≡ (fresh_turn.history ++ (assistant [] three_calls.tool_calls ∷ messages)))
    × Answer agent three_calls.tool_calls messages
    × ((round agent three_calls [] fresh_turn).0
        ≡ goes_on (scan agent [] three_calls.tool_calls).called)
unfolding scan immediate_restart text_eq
round-Answer_example = round-Answer agent three_calls [] fresh_turn refl

round-broken_example :
    ((round agent restart_and_status [] fresh_turn).0 ≡ ends broken)
    × ((round agent restart_and_status [] fresh_turn).1.calls ≡ restart_call ∷ [])
unfolding scan immediate_restart text_eq is_space is_upper
round-broken_example =
    round-broken agent restart_and_status [] fresh_turn restart_call refl (omega arith)

abbrev item_size : HistoryItem → ℕ
item_size m = 20000 + length m.content

abbrev prompt : HistoryItem
prompt = record { role = codes "system"; content = codes "You are JARVIS"; others = [] }

-- three messages behind the prompt, of which two have to go
abbrev long_history : List HistoryItem
long_history =
    record { role = codes "user"; content = codes "disk?"; others = [] }
    ∷ record { role = codes "assistant"; content = codes "Which host?"; others = [] }
    ∷ record { role = codes "user"; content = codes "web"; others = [] }
    ∷ []

bound_history_kept_example :
    (length (bound_history item_size (prompt ∷ long_history)) ≤ 24)
    × Fits item_size (bound_history item_size (prompt ∷ long_history))
    × (newest (bound_history item_size (prompt ∷ long_history))
        ≡ newest (map truncated (prompt ∷ long_history)))
    × (rest : List HistoryItem) × (bound_history item_size (prompt ∷ long_history) ≡ prompt ∷ rest)
unfolding is_system text_eq
bound_history_kept_example = bound_history_kept item_size prompt long_history refl
