-- ===== src/Agent/Executed.antt =====
-- The calls that a whole turn executes.
use devops_agent.Prelude.{
  ℕ, zero, suc, ◌≡◌, refl, sym, subst, ◌∙◌, Bool, true, false, Option, none, some, List, [], ◌∷◌,
  All, map, any, arith, Bool-cases, Option-cases, and-eq-true, inl, inr, if_true, if_false,
}
use devops_agent.Text.{Text, text_eq→eq}
use devops_agent.Agent.{
  ToolCall, AgentConfig, Completion, Conversation, Turn, Signature, same_signature, was_called,
  is_registered, signature_of, scan, is_restart, immediate_restart, execute_each, only_restart,
  finish_round, round, RoundEnd, ends, goes_on, round_end, has_calls, after_round, react, iterate,
}
use devops_agent.Agent.Once.{
  Extends, Fresh, Once, Accepted, Extends-cons, Extends-more, not_called, Fresh-fewer, scan-Fresh,
  scan-Extends, scan-Accepted,
}

was_called-same :
    (s t : Signature) (called : List Signature)
    → same_signature s t ≡ true
    → was_called s called ≡ true
    → was_called t called ≡ true
unfolding same_signature
was_called-same (n, a) (m, b) called same h =
    let (names, arguments) = and-eq-true _ _ same in
    let n_is_m : n ≡ m = text_eq→eq n m names in
    let a_is_b : a ≡ b = text_eq→eq a b arguments in rw (← n_is_m, ← a_is_b) h

-- what holds of all calls to execute holds of the immediate restart among them
immediate_restart-All {κ} :
    {R : Type 0} (agent : AgentConfig R) (P : ToolCall → Type κ) (tcs : List ToolCall)
    (tc : ToolCall)
    → All P tcs
    → immediate_restart agent tcs ≡ some tc
    → P tc
unfolding immediate_restart
immediate_restart-All agent P [] tc h e = cc
immediate_restart-All agent P (x ∷ xs) tc h e = elim (Bool-cases (is_restart agent x)) [
  | inl chosen ↦
      let this : some x ≡ some tc = sym (if_true _ _ chosen) ∙ e in
      let is_tc : x ≡ tc = cc in subst P is_tc h.0
  | inr skipped ↦ immediate_restart-All agent P xs tc h.1 (sym (if_false _ _ skipped) ∙ e)
]

only_restart-All {κ} :
    {R : Type 0} (agent : AgentConfig R) (P : ToolCall → Type κ) (tcs : List ToolCall)
    → All P tcs
    → All P (only_restart (immediate_restart agent tcs) tcs)
unfolding only_restart
only_restart-All agent P tcs h = elim (Option-cases (immediate_restart agent tcs)) [
  | inl ordinary ↦ rw ordinary h
  | inr (tc, e) ↦ rw e (immediate_restart-All agent P tcs tc h e, tt)
]

module _ {R : Type 0} (agent : AgentConfig R) where
  Extends-join :
      (s : Signature) (called more : List Signature)
      → was_called s more ≡ true
      → Extends agent called more
      → Extends agent (s ∷ called) more
  unfolding was_called any
  Extends-join s called more here h t e = elim (Bool-cases (same_signature s t)) [
    | inl same ↦ was_called-same s t more same here
    | inr other ↦ h t (ground (arith, e, other))
  ]

  Fresh-All :
      (called : List Signature) (tcs : List ToolCall)
      → Fresh agent called tcs
      → All (λ tc. was_called (signature_of agent tc) called ≡ false) tcs
  Fresh-All called [] f = tt
  Fresh-All called (tc ∷ tcs) f = (
    f.0,
    Fresh-All called tcs (
        Fresh-fewer agent called (signature_of agent tc ∷ called) tcs
          (Extends-more agent (signature_of agent tc) called) f.1),
  )

  only_restart-Fresh :
      (called : List Signature) (tcs : List ToolCall)
      → Fresh agent called tcs
      → Fresh agent called (only_restart (immediate_restart agent tcs) tcs)
  unfolding only_restart
  only_restart-Fresh called tcs f = elim (Option-cases (immediate_restart agent tcs)) [
    | inl ordinary ↦ rw ordinary f
    | inr (tc, e) ↦ rw e (immediate_restart-All agent _ tcs tc (Fresh-All called tcs f) e, tt)
  ]

  execute_each-Once :
      (earlier tcs : List ToolCall) (called : List Signature)
      → Once agent earlier
      → Extends agent (map (signature_of agent) earlier) called
      → Fresh agent called tcs
      → Once agent (execute_each agent earlier tcs).1
  unfolding execute_each
  execute_each-Once earlier [] called o e f = o
  execute_each-Once earlier (tc ∷ tcs) called o e f =
      execute_each-Once (tc ∷ earlier) tcs (signature_of agent tc ∷ called)
        (not_called agent (signature_of agent tc) _ called e f.0, o)
        (Extends-cons agent (signature_of agent tc) _ called e) f.1

  -- only registered calls, each remembered
  abbrev pub Remembered : List Signature → List ToolCall → Type 0
  Remembered called calls =
      All (λ tc. is_registered agent.allowed_tool_names tc.name ≡ true) calls
      × Extends agent (map (signature_of agent) calls) called

  execute_each-Remembered :
      (earlier tcs : List ToolCall) (called : List Signature)
      → Remembered called earlier
      → All (Accepted agent called) tcs
      → Remembered called (execute_each agent earlier tcs).1
  unfolding execute_each
  execute_each-Remembered earlier [] called r a = r
  execute_each-Remembered earlier (tc ∷ tcs) called r a =
      execute_each-Remembered (tc ∷ earlier) tcs called
        ((a.0.0, r.0), Extends-join (signature_of agent tc) _ called a.0.1 r.1) a.1

  -- of the calls executed so far, none twice, and all remembered
  abbrev pub Good : List Signature → List ToolCall → Type 0
  Good called calls = Once agent calls × Remembered called calls

  round-Good :
      (completion : Completion) (called : List Signature) (c : Conversation R)
      → Good called c.calls
      → Good
          (scan agent called completion.tool_calls).called
          (round agent completion called c).1.calls
  unfolding round finish_round
  round-Good completion called c (once, (known, seen)) =
      let scanned = scan agent called completion.tool_calls in
      let wider = scan-Extends agent completion.tool_calls called in
      (
        execute_each-Once c.calls
            (only_restart (immediate_restart agent scanned.runnable) scanned.runnable) called once
            seen
            (only_restart-Fresh called scanned.runnable
              (scan-Fresh agent completion.tool_calls called)),
        execute_each-Remembered c.calls
            (only_restart (immediate_restart agent scanned.runnable) scanned.runnable)
            scanned.called (known, λ s e. wider s (seen s e))
            (only_restart-All agent _ scanned.runnable
              (scan-Accepted agent completion.tool_calls called)),
      )

  -- the calls of a turn are good for some signatures
  abbrev pub CallsExecuted : List ToolCall → Type 0
  CallsExecuted calls =
      Once agent calls × All (λ tc. is_registered agent.allowed_tool_names tc.name ≡ true) calls

  round_end-called :
      (complete : Bool) (restart : Option ToolCall) (results : List R)
      (called more : List Signature)
      → round_end complete restart results called ≡ goes_on more
      → called ≡ more
  unfolding round_end
  round_end-called false restart results called more h = cc
  round_end-called true none results called more h = cc
  round_end-called true (some tc) (r ∷ results) called more h = cc
  round_end-called true (some tc) [] called more h = cc

  round-goes_on :
      (completion : Completion) (called more : List Signature) (c : Conversation R)
      → (round agent completion called c).0 ≡ goes_on more
      → (scan agent called completion.tool_calls).called ≡ more
  unfolding round finish_round
  round-goes_on completion called more c h = round_end-called _ _ _ _ more h

  after_round-CallsExecuted :
      (more : List Signature → Conversation R → Turn R × Conversation R)
      (end_of_round : RoundEnd R × Conversation R)
      → ((called : List Signature) (c : Conversation R)
          → Good called c.calls
          → CallsExecuted (more called c).1.calls)
      → CallsExecuted end_of_round.1.calls
      → ((called : List Signature)
          → end_of_round.0 ≡ goes_on called
          → Good called end_of_round.1.calls)
      → CallsExecuted (after_round more end_of_round).1.calls
  unfolding after_round
  after_round-CallsExecuted more (ends turn, c) rest done on = done
  after_round-CallsExecuted more (goes_on called, c) rest done on = rest called c (on called refl)

  react-CallsExecuted :
      (more : List Signature → Conversation R → Turn R × Conversation R) (completion : Completion)
      (called : List Signature) (c : Conversation R)
      → ((called : List Signature) (c : Conversation R)
          → Good called c.calls
          → CallsExecuted (more called c).1.calls)
      → Good called c.calls
      → CallsExecuted (react agent more completion called c).1.calls
  unfolding react
  react-CallsExecuted more completion called c rest g =
      let (once, (known, seen)) = round-Good completion called c g in
      let keeps =
        after_round-CallsExecuted more (round agent completion called c) rest (once, known)
          (λ later h.
            subst (λ s. Good s (round agent completion called c).1.calls)
              (round-goes_on completion called later c h) (once, (known, seen))) in
      elim (Bool-cases (has_calls completion.tool_calls)) [
        | inl some_calls ↦
            subst (λ (r : Turn R × Conversation R). CallsExecuted r.1.calls)
              (sym (if_true {b = has_calls completion.tool_calls} _ _ some_calls)) keeps
        | inr no_calls ↦
            subst (λ (r : Turn R × Conversation R). CallsExecuted r.1.calls)
              (sym (if_false {b = has_calls completion.tool_calls} _ _ no_calls)) (g.0, g.1.0)
      ]

  pub iterate-CallsExecuted :
      (n : ℕ) (content : Text) (called : List Signature) (c : Conversation R)
      → Good called c.calls
      → CallsExecuted (iterate agent n content called c).1.calls
  unfolding iterate
  iterate-CallsExecuted zero content called c g = (g.0, g.1.0)
  iterate-CallsExecuted (suc n) content called c g =
      let completion = agent.chat c.history in
      react-CallsExecuted (iterate agent n completion.content) completion called c
        (iterate-CallsExecuted n completion.content) g
