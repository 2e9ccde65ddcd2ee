-- ===== src/Agent/Run.antt =====
-- A whole turn of the agent (app/agent.py, `run` and `_deterministic_shortcut`). What the memory
-- command handler answers, the system prompt, and the words in which a shortcut's result is given,
-- are parameters.
use devops_agent.Prelude.{
  ℕ, Bool, true, false, ◌||◌, Option, none, some, String, List, [], ◌∷◌, ◌++◌, ◌==◌, if◌then◌else◌,
}
use devops_agent.Text.{Text, Unicode, codes, is_in, tokens, lower_text}
use devops_agent.Regex.{Regex, seq, alt, upto, lits, match}
use devops_agent.Agent.{
  ToolCall, Message, system, user, assistant, AgentConfig, Conversation, Turn, answered, reported,
  iterate,
}

abbrev pub max_tool_iterations : ℕ
max_tool_iterations = 8

-- `" ".join(words)`
join_words : List Text → Text
join_words [] = []
join_words (w ∷ []) = w
join_words (w ∷ v ∷ ws) = w ++ (32 ∷ join_words (v ∷ ws))

is_trimmed : ℕ → Bool
is_trimmed c = (c == 32) || (c == 63) || (c == 46) || (c == 33)

trim_start : Text → Text
unfolding is_trimmed
trim_start [] = []
trim_start (c ∷ s) = let rest = trim_start s in if is_trimmed c then rest else c ∷ s

-- whether the text is made of trimmed characters only
is_blank : Text → Bool
unfolding trim_start
is_blank s = elim (trim_start s) [ [] ↦ true | (c ∷ t) ↦ false ]

trim_end : Text → Text
unfolding is_blank
trim_end [] = []
trim_end (c ∷ s) = let rest = trim_end s in if is_blank (c ∷ s) then [] else c ∷ rest

-- `.strip(" ?.! ")`
normalized : Unicode → Text → Text
unfolding join_words trim_start trim_end lower_text tokens
normalized u text = trim_end (trim_start (join_words (tokens (lower_text u text))))

at_end : Text → Bool
at_end [] = true
at_end (c ∷ s) = false

is_optional : String → Regex
unfolding lits
is_optional s = upto 1 (lits (codes s))

-- `(what is my )?(current )?…`
metric : String → Regex → Regex
unfolding is_optional lits
metric name ending =
    seq (is_optional "what is my ")
      (seq (is_optional "current ") (seq (lits (codes name)) (upto 1 ending)))

-- `re.fullmatch`
full : Regex → Text → Bool
unfolding match at_end
full r s = match r at_end s

-- the name of the tool, which takes no arguments
unfoldable pub deterministic_shortcut : Unicode → Text → Option Text
unfolding normalized metric full is_in lits
deterministic_shortcut u text =
    let s = normalized u text in
    if full (metric "cpu" (alt (lits (codes " usage")) (lits (codes " load")))) s
    then some (codes "get_cpu_usage")
    else (if full (metric "memory" (lits (codes " usage"))) s
        then some (codes "get_memory_usage")
        else (if full (metric "disk" (alt (lits (codes " usage")) (lits (codes " space")))) s
            then some (codes "get_disk_usage")
            else (if is_in s (
                  codes "uptime"
                  ∷ codes "what is the uptime"
                  ∷ codes "how long has the server been up"
                  ∷ [])
                then some (codes "get_uptime")
                else (if is_in s (
                      codes "show containers"
                      ∷ codes "list containers"
                      ∷ codes "what containers are running"
                      ∷ [])
                    then some (codes "docker_status")
                    else none))))

pub record TurnConfig (R : Type 0) : Type 0 where
  pub memory_command : Text → Option Text
  pub system_prompt : Text → Text
  pub shortcut_answer : Text → R → Text

-- `history[0]`, if it is the system's
unfoldable pub refresh_system : {R : Type 0} → Text → List (Message R) → List (Message R)
refresh_system prompt (system content ∷ history) = system prompt ∷ history
refresh_system prompt history = history

module _ {R : Type 0} (agent : AgentConfig R) (config : TurnConfig R) where
  unfoldable pub take_shortcut : Text → List (Message R) → Turn R × Conversation R
  take_shortcut name history =
      let tc : ToolCall = record { name = name; arguments = [] } in
      let r = agent.execute_tool [] tc in
      (
        reported r,
        record {
          history = history ++ (assistant (config.shortcut_answer name r) [] ∷ []);
          calls = tc ∷ [];
        },
      )

  unfoldable pub on_shortcut : Option Text → List (Message R) → Turn R × Conversation R
  unfolding take_shortcut iterate
  on_shortcut (some name) history = take_shortcut name history
  on_shortcut none history =
      iterate agent max_tool_iterations [] [] (record { history = history; calls = [] })

  unfoldable pub on_command : Option Text → Text → List (Message R) → Turn R × Conversation R
  unfolding deterministic_shortcut on_shortcut refresh_system
  on_command (some direct_answer) user_input history = (
    answered direct_answer,
    record { history = history ++ (user user_input ∷ assistant direct_answer [] ∷ []); calls = [] },
  )
  on_command none user_input history =
      on_shortcut (deterministic_shortcut agent.unicode user_input)
        (refresh_system (config.system_prompt user_input) (history ++ (user user_input ∷ [])))

  unfoldable pub run : Text → List (Message R) → Turn R × Conversation R
  unfolding on_command
  run user_input history = on_command (config.memory_command user_input) user_input history
