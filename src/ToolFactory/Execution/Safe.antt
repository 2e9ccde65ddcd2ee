-- ===== src/ToolFactory/Execution/Safe.antt =====
-- What an execution may send.
use devops_agent.Prelude.{
  ◌≡◌, refl, ◌⊎◌, inl, inr, Bool, true, false, ◌&&◌, not, Option, none, some, List, [], ◌∷◌, any,
  arith, Bool-cases, List-cases, and-eq-true,
}
use devops_agent.Text.{Text, Unicode, is_in}
use devops_agent.Dict.{lookup}
use devops_agent.Whitelist.{Item, is_command_allowed}
use devops_agent.ToolFactory.Json.{Json, obj, Fields, Python}
use devops_agent.ToolFactory.Template.{pieces, placeholders}
use devops_agent.ToolFactory.Requests.{ToolRequest, no_tools, serve_all, approvals}
use devops_agent.ToolFactory.Requests.Valid.{is_released}
use devops_agent.ToolFactory.Requests.Approval.{serve_all-no_tools}
use devops_agent.ToolFactory.Input.{validate_input}
use devops_agent.ToolFactory.Validation.{ToolDefinition, ToolStatus, validate_tool_definition}
use devops_agent.ToolFactory.Repository.{ToolVersion, OrgTools, get_active_version}
use devops_agent.ToolFactory.Service.{name_text}
use devops_agent.ToolFactory.Execution.{
  Runner, is_forbidden_char, substitute, clean, build_command, run_audited, is_ssh, gated,
  is_active, checked, execute_tool,
}

clean-some :
    (py : Python) (u : Unicode) (o : Option Text) (c : Text)
    → clean py u o ≡ some c
    → any is_forbidden_char c ≡ false
unfolding clean
clean-some py u none c h = cc
clean-some py u (some s) c h = elim (Bool-cases (any is_forbidden_char s)) [
  | inl bad ↦ cc (rw bad at h)
  | inr good ↦ let same : s ≡ c = cc (rw good at h) in rw (← same) good
]

-- Nothing is added to the log, or one command that the whitelist takes and that was built.
gated-sends :
    (patterns : List (List Item)) (u : Unicode) (runner : Runner) (name user_id : Text)
    (d : ToolDefinition) (v : ToolVersion) (o : Option Text) (s : OrgTools) (log : List Text)
    → ((gated patterns u runner name user_id d v o s log).2 ≡ log)
      ⊎ ((c : Text) × (o ≡ some c)
          × (is_command_allowed u patterns c ≡ true)
          × ((gated patterns u runner name user_id d v o s log).2 ≡ c ∷ log))
unfolding gated run_audited
gated-sends patterns u runner name user_id d v none s log = inl refl
gated-sends patterns u runner name user_id d v (some c) s log =
    elim (Bool-cases (is_command_allowed u patterns c)) [
      | inr rejected ↦ inl (rw rejected refl)
      | inl taken ↦ elim (Bool-cases (is_ssh d.execution_mode && not runner.ssh_configured)) [
        | inl unavailable ↦ inl (rw (taken, unavailable) refl)
        | inr available ↦ inr (c, refl, taken, rw (taken, available) refl)
      ]
    ]

-- what holds of a tool that is run with arguments, and of the command
abbrev pub MayRun :
    Python → List (List Item) → Unicode → (Json → Bool) → Fields → ToolDefinition → Text → Type 0
MayRun py patterns u role_can arguments d c =
    (is_active d.status ≡ true)
    × (d.enabled ≡ true)
    × (role_can d.required_permission ≡ true)
    × (validate_input py d.input_schema (obj arguments) ≡ [])
    × (build_command py u (name_text d.command_template) arguments ≡ some c)
    × (any is_forbidden_char c ≡ false)
    × (is_command_allowed u patterns c ≡ true)

is_released-is_active : (t : ToolStatus) → is_active t ≡ true → is_released t ≡ true
unfolding is_active
is_released-is_active t h = ground arith

module _ (py : Python) (patterns : List (List Item)) (u : Unicode) (runner : Runner) (name : Text)
    (arguments : Fields) (user_id : Text) (role_can : Json → Bool) where
  Sent : Option ToolDefinition → List Text → List Text → Type 0
  Sent o log log' =
      (log' ≡ log)
      ⊎ ((d : ToolDefinition) × (c : Text) × (o ≡ some d)
          × MayRun py patterns u role_can arguments d c
          × (log' ≡ c ∷ log))

  run_checked :
      (d : ToolDefinition) (v : ToolVersion) (s : OrgTools) (log : List Text)
      → is_active d.status ≡ true
      → d.enabled ≡ true
      → role_can d.required_permission ≡ true
      → validate_input py d.input_schema (obj arguments) ≡ []
      → Sent
          (some d)
          log
          (gated patterns u runner name user_id d v
            (build_command py u (name_text d.command_template) arguments)
            s
            log).2
  unfolding Sent build_command
  run_checked d v s log live on can valid =
      elim (gated-sends patterns u runner name user_id d v
        (build_command py u (name_text d.command_template) arguments) s log) [
          | inl same ↦ inl same
          | inr (c, built, taken, logged) ↦
              inr (d, c, refl, (live, on, can, valid, built, built_clean c built, taken), logged)
        ]
    where
      built_clean :
          (c : Text)
          → build_command py u (name_text d.command_template) arguments ≡ some c
          → any is_forbidden_char c ≡ false
      built_clean c =
          clean-some py u
            (substitute py u (placeholders (pieces (name_text d.command_template))) arguments
              (name_text d.command_template))
            c

  checked-Sent :
      (o : Option ToolDefinition) (v : Option ToolVersion) (s : OrgTools) (log : List Text)
      → Sent o log (checked py patterns u runner name arguments user_id role_can o v s log).2
  unfolding checked Sent
  checked-Sent none v s log = inl refl
  checked-Sent (some d) none s log = inl refl
  checked-Sent (some d) (some v) s log = elim (Bool-cases (is_active d.status && d.enabled)) [
    | inr idle ↦ rw idle (inl refl)
    | inl on ↦ elim (Bool-cases (role_can d.required_permission)) [
      | inr denied ↦ rw (on, denied) (inl refl)
      | inl can ↦ elim (List-cases (validate_input py d.input_schema (obj arguments))) [
        | inr (p, ps, bad) ↦ rw (on, can, bad) (inl refl)
        | inl valid ↦
            let (live, enabled) = and-eq-true (is_active d.status) d.enabled on in
            rw (on, can, valid) (run_checked d v s log live enabled can valid)
      ]
    ]
  ]

-- An execution hands the runner nothing, or one command: then the tool is active and enabled, its
-- permission is granted, the arguments pass its schema, and the command is the template's with
-- checked values, has no forbidden character, and passes the whitelist.
pub execute_tool-MayRun :
    (py : Python) (patterns : List (List Item)) (u : Unicode) (runner : Runner) (name : Text)
    (arguments : Fields) (user_id : Text) (role_can : Json → Bool) (s : OrgTools) (log : List Text)
    → ((execute_tool py patterns u runner name arguments user_id role_can s log).2 ≡ log)
      ⊎ ((d : ToolDefinition) × (c : Text) × (lookup name s.definitions ≡ some d)
          × MayRun py patterns u role_can arguments d c
          × ((execute_tool py patterns u runner name arguments user_id role_can s log).2 ≡ c ∷ log))
unfolding execute_tool Sent
execute_tool-MayRun py patterns u runner name arguments user_id role_can s log =
    checked-Sent py patterns u runner name arguments user_id role_can (lookup name s.definitions)
      (get_active_version name s) s log

-- Whatever an execution hands the runner after any requests to a service that began without tools,
-- it belongs to the definition that is stored under the tool's name then, which passes every gate of
-- the execution and the validation, and an approval of a tool of this name went through.
pub serve_all-execute_tool :
    (py : Python) (patterns : List (List Item)) (u : Unicode) (runner : Runner) (name : Text)
    (arguments : Fields) (user_id : Text) (role_can : Json → Bool) (rs : List ToolRequest)
    (log : List Text)
    → let log' =
        (execute_tool py patterns u runner name arguments user_id role_can
          (serve_all py u rs no_tools)
          log).2 in
      (log' ≡ log)
      ⊎ ((d : ToolDefinition) × (c : Text) × (lookup name (serve_all py u rs no_tools).definitions
            ≡ some d)
          × (validate_tool_definition py u d ≡ [])
          × (is_in name (approvals py u rs no_tools) ≡ true)
          × MayRun py patterns u role_can arguments d c
          × (log' ≡ c ∷ log))
serve_all-execute_tool py patterns u runner name arguments user_id role_can rs log =
    elim (execute_tool-MayRun py patterns u runner name arguments user_id role_can
      (serve_all py u rs no_tools) log) [
        | inl same ↦ inl same
        | inr (d, c, found, may, logged) ↦
            let (valid, told) = serve_all-no_tools py u rs name d found in
            inr (d, c, found, valid, told (is_released-is_active d.status may.0), may, logged)
      ]
