-- ===== src/Agent/Allowed.antt =====
-- What a turn may execute.
use devops_agent.Prelude.{
  ◌≡◌, ◌⊎◌, refl, true, Option, none, some, List, [], ◌∷◌, All, any, inl, inr,
}
use devops_agent.Text.{Text}
use devops_agent.Agent.{ToolCall, Message, AgentConfig, is_registered, was_called}
use devops_agent.Agent.Run.{
  TurnConfig, deterministic_shortcut, max_tool_iterations, take_shortcut, on_shortcut, on_command,
  run,
}
use devops_agent.Agent.Once.{Once}
use devops_agent.Agent.Executed.{iterate-CallsExecuted}

module _ {R : Type 0} (agent : AgentConfig R) (config : TurnConfig R) where
  -- the calls of a turn are registered, or the one of a shortcut, which takes no arguments
  abbrev pub MayExecute : Text → List ToolCall → Type 0
  MayExecute user_input calls =
      All (λ tc. is_registered agent.allowed_tool_names tc.name ≡ true) calls
      ⊎ ((name : Text) × (deterministic_shortcut agent.unicode user_input ≡ some name)
          × (calls ≡ record { name = name; arguments = [] } ∷ []))

  on_shortcut-MayExecute :
      (user_input : Text) (o : Option Text) (history : List (Message R))
      → deterministic_shortcut agent.unicode user_input ≡ o
      → Once agent (on_shortcut agent config o history).1.calls
        × MayExecute user_input (on_shortcut agent config o history).1.calls
  unfolding on_shortcut take_shortcut was_called any
  on_shortcut-MayExecute user_input none history e =
      let (once, known) =
        iterate-CallsExecuted agent max_tool_iterations [] []
          (record { history = history; calls = [] }) (tt, (tt, λ s called. called)) in
      (once, inl known)
  on_shortcut-MayExecute user_input (some name) history e = ((refl, tt), inr (name, e, refl))

  on_command-MayExecute :
      (user_input : Text) (o : Option Text) (history : List (Message R))
      → Once agent (on_command agent config o user_input history).1.calls
        × MayExecute user_input (on_command agent config o user_input history).1.calls
  unfolding on_command
  on_command-MayExecute user_input none history =
      on_shortcut-MayExecute user_input (deterministic_shortcut agent.unicode user_input) _ refl
  on_command-MayExecute user_input (some direct_answer) history = (tt, inl tt)

  -- Whatever the model answers, a turn executes no two calls with the same name and arguments, and
  -- only calls of registered tools, but for the tool of a shortcut that the user's own text names.
  pub run-MayExecute :
      (user_input : Text) (history : List (Message R))
      → Once agent (run agent config user_input history).1.calls
        × MayExecute user_input (run agent config user_input history).1.calls
  unfolding run
  run-MayExecute user_input history =
      on_command-MayExecute user_input (config.memory_command user_input) history
