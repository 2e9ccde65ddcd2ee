-- ===== src/Agent.antt =====
-- One turn of the agent (app/agent.py, `Agent.run`): the loop that asks the model, executes the tool
-- calls it returns, and gives the results back. The provider and the tools are parameters; so is what
-- `str` makes of a call's arguments, which are texts here. `bound_history` (Agent/Context) and
-- `select_tools`, which choose what the model is shown, are part of the provider's `chat`. Reads that
-- the source executes in parallel stand in the order of the calls. Callbacks, logs and the wording of
-- an answer that reports a result are left out.
mod Types
pub mod Run
pub mod Once
pub mod Executed
pub mod Allowed
pub mod Replies
pub mod Context
mod Examples
pub use Types.*
use devops_agent.Prelude.{
  ℕ, zero, suc, ◌≡◌, Bool, true, false, ◌&&◌, ◌||◌, not, Option, none, some, List, [], ◌∷◌, ◌++◌,
  any, if◌then◌else◌,
}
use devops_agent.Text.{Text, Unicode, codes, text_eq, is_in, tokens, lower_text}
use devops_agent.Dict.{Dict, lookup}

abbrev pub Signature : Type 0
Signature = Text × Text

unfoldable pub same_signature : Signature → Signature → Bool
same_signature (n, a) (m, b) = text_eq n m && text_eq a b

unfoldable pub was_called : Signature → List Signature → Bool
unfolding any same_signature
was_called signature called = any (λ s. same_signature s signature) called

unfoldable pub is_registered : Option (List Text) → Text → Bool
unfolding is_in
is_registered none name = true
is_registered (some names) name = is_in name names

-- what is done with a tool call
pub data CallVerdict : Type 0 where
  skip refuse run_it : CallVerdict

pub record Scanned : Type 0 where
  pub pending : List (ToolCall × CallVerdict)
  pub runnable : List ToolCall
  pub called : List Signature

unfoldable pub add_pending : ToolCall → CallVerdict → Scanned → Scanned
add_pending tc run_it s = record s {
  pending = (tc, run_it) ∷ s.pending;
  runnable = tc ∷ s.runnable;
}
add_pending tc verdict s = record s { pending = (tc, verdict) ∷ s.pending }

module _ {R : Type 0} (agent : AgentConfig R) where
  abbrev pub signature_of : ToolCall → Signature
  signature_of tc = (tc.name, agent.shown tc.arguments)

  unfoldable pub verdict_on : List Signature → ToolCall → CallVerdict
  unfolding was_called is_registered
  verdict_on called tc =
      if was_called (signature_of tc) called
      then skip
      else (if is_registered agent.allowed_tool_names tc.name then run_it else refuse)

  unfoldable pub remember : CallVerdict → ToolCall → List Signature → List Signature
  remember skip tc called = called
  remember verdict tc called = signature_of tc ∷ called

  -- `for tc in tool_calls`
  unfoldable pub scan : List Signature → List ToolCall → Scanned
  unfolding verdict_on remember add_pending
  scan called [] = record { pending = []; runnable = []; called = called }
  scan called (tc ∷ tcs) =
      let verdict = verdict_on called tc in
      add_pending tc verdict (scan (remember verdict tc called) tcs)

  -- an immediate restart among the calls to execute
  unfoldable pub is_restart : ToolCall → Bool
  unfolding any lookup lower_text tokens
  is_restart tc =
      text_eq tc.name (codes "run_diagnostic")
      && (elim (lookup (codes "mode") tc.arguments) [
        | none ↦ false
        | (some mode) ↦ text_eq mode (codes "immediate")
      ])
      && any (λ word. is_in word (codes "restart" ∷ codes "reboot" ∷ []))
          (tokens (
            lower_text agent.unicode (elim (lookup (codes "request") tc.arguments) [
              | none ↦ []
              | (some request) ↦ request
            ])))

  unfoldable pub immediate_restart : List ToolCall → Option ToolCall
  unfolding is_restart
  immediate_restart [] = none
  immediate_restart (tc ∷ tcs) = if is_restart tc then some tc else immediate_restart tcs

  -- the results, and the calls behind them, the last one first
  unfoldable pub execute_each : List ToolCall → List ToolCall → List R × List ToolCall
  execute_each earlier [] = ([], earlier)
  execute_each earlier (tc ∷ tcs) =
      let (results, calls) = execute_each (tc ∷ earlier) tcs in
      (agent.execute_tool earlier tc ∷ results, calls)

-- the messages that answer the calls of a round, and whether `next` found a result for each
unfoldable pub merge :
    {R : Type 0} → List (ToolCall × CallVerdict) → List R → List (Message R) × Bool
merge [] results = ([], true)
merge ((tc, skip) ∷ pending) results =
    let (messages, complete) = merge pending results in (tool tc duplicate ∷ messages, complete)
merge ((tc, refuse) ∷ pending) results =
    let (messages, complete) = merge pending results in
    (tool tc not_registered ∷ messages, complete)
merge ((tc, run_it) ∷ pending) [] = ([], false)
merge ((tc, run_it) ∷ pending) (r ∷ results) =
    let (messages, complete) = merge pending results in (tool tc (executed r) ∷ messages, complete)

unfoldable pub only_restart : Option ToolCall → List ToolCall → List ToolCall
only_restart none runnable = runnable
only_restart (some tc) runnable = tc ∷ []

unfoldable pub has_calls : List ToolCall → Bool
has_calls [] = false
has_calls (tc ∷ tcs) = true

-- how a round ends: with the end of the turn, or with the signatures seen so far
pub data RoundEnd (R : Type 0) : Type 0 where
  ends : Turn R → RoundEnd R
  goes_on : List Signature → RoundEnd R

unfoldable pub round_end :
    {R : Type 0} → Bool → Option ToolCall → List R → List Signature → RoundEnd R
round_end false restart results called = ends broken
round_end true none results called = goes_on called
round_end true (some tc) (r ∷ results) called = ends (reported r)
-- not reached: a restart has its result
round_end true (some tc) [] called = ends broken

-- `more` is the rest of the loop
unfoldable pub after_round :
    {R : Type 0}
    → (List Signature → Conversation R → Turn R × Conversation R)
    → RoundEnd R × Conversation R
    → Turn R × Conversation R
after_round more (ends turn, c) = (turn, c)
after_round more (goes_on called, c) = more called c

module _ {R : Type 0} (agent : AgentConfig R) where
  -- a round behind the scan of its calls
  unfoldable pub finish_round :
      Completion → Option ToolCall → Scanned → Conversation R → RoundEnd R × Conversation R
  unfolding only_restart execute_each merge round_end
  finish_round completion restart scanned c =
      let (results, calls) = execute_each agent c.calls (only_restart restart scanned.runnable) in
      let (messages, complete) = merge scanned.pending results in
      (
        round_end complete restart results scanned.called,
        record {
          history = c.history ++ (assistant completion.content completion.tool_calls ∷ messages);
          calls = calls;
        },
      )

  unfoldable pub round : Completion → List Signature → Conversation R → RoundEnd R × Conversation R
  unfolding scan immediate_restart finish_round
  round completion called c =
      let scanned = scan agent called completion.tool_calls in
      finish_round completion (immediate_restart agent scanned.runnable) scanned c

  unfoldable pub react :
      (List Signature → Conversation R → Turn R × Conversation R)
      → Completion
      → List Signature
      → Conversation R
      → Turn R × Conversation R
  unfolding round after_round has_calls
  react more completion called c =
      if has_calls completion.tool_calls then after_round more (round completion called c) else (
        answered completion.content,
        record c { history = c.history ++ (assistant completion.content [] ∷ []) },
      )

  -- `for iteration in range(MAX_TOOL_ITERATIONS)`, by the rounds that are left
  unfoldable pub iterate : ℕ → Text → List Signature → Conversation R → Turn R × Conversation R
  unfolding react
  iterate zero content called c = (gave_up content, c)
  iterate (suc n) content called c =
      let completion = agent.chat c.history in
      react (iterate n completion.content) completion called c
