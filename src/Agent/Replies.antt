-- ===== src/Agent/Replies.antt =====
-- How the calls of a round are answered.
use devops_agent.Prelude.{
  ◌<◌, ◌≡◌, refl, sym, ap, subst, ◌∙◌, true, false, none, some, List, [], ◌∷◌, ◌++◌, length, arith,
}
use devops_agent.Agent.{
  ToolCall, ToolReply, duplicate, not_registered, executed, Message, assistant, tool, Completion,
  AgentConfig, Conversation, Signature, CallVerdict, skip, refuse, run_it, Scanned, add_pending,
  verdict_on, remember, scan, immediate_restart, execute_each, merge, only_restart, broken,
  RoundEnd, ends, goes_on, round_end, finish_round, round,
}

-- the calls of a round that are to be executed
abbrev to_run : List (ToolCall × CallVerdict) → List ToolCall
to_run [] = []
to_run ((tc, run_it) ∷ pending) = tc ∷ to_run pending
to_run ((tc, verdict) ∷ pending) = to_run pending

abbrev calls_of : List (ToolCall × CallVerdict) → List ToolCall
calls_of [] = []
calls_of ((tc, verdict) ∷ pending) = tc ∷ calls_of pending

module _ {R : Type 0} (agent : AgentConfig R) where
  -- a reply that reports an execution reports the execution of this call
  abbrev pub IsOwn : ToolCall → ToolReply R → Type 0
  IsOwn tc (executed r) = (earlier : List ToolCall) × (r ≡ agent.execute_tool earlier tc)
  IsOwn tc reply = Unit

  -- the messages answer the calls, in order, each with its own reply
  abbrev pub Answer : List ToolCall → List (Message R) → Type 0
  Answer [] messages = messages ≡ []
  Answer (tc ∷ tcs) messages =
      (reply : ToolReply R) × (rest : List (Message R)) × (messages ≡ tool tc reply ∷ rest)
      × IsOwn tc reply
      × Answer tcs rest

  scan-to_run :
      (tcs : List ToolCall) (called : List Signature)
      → to_run (scan agent called tcs).pending ≡ (scan agent called tcs).runnable
  unfolding scan
  scan-to_run [] called = refl
  scan-to_run (tc ∷ tcs) called =
      extend (verdict_on agent called tc) _
        (scan-to_run tcs (remember agent (verdict_on agent called tc) tc called))
    where
      extend :
          (v : CallVerdict) (s : Scanned)
          → to_run s.pending ≡ s.runnable
          → to_run (add_pending tc v s).pending ≡ (add_pending tc v s).runnable
      extend skip s e = e
      extend refuse s e = e
      extend run_it s e = ap (λ l. tc ∷ l) e

  scan-calls_of :
      (tcs : List ToolCall) (called : List Signature)
      → calls_of (scan agent called tcs).pending ≡ tcs
  unfolding scan
  scan-calls_of [] called = refl
  scan-calls_of (tc ∷ tcs) called =
      extend (verdict_on agent called tc) _
        (scan-calls_of tcs (remember agent (verdict_on agent called tc) tc called))
    where
      extend :
          (v : CallVerdict) (s : Scanned)
          → calls_of s.pending ≡ tcs
          → calls_of (add_pending tc v s).pending ≡ tc ∷ tcs
      extend skip s e = ap (λ l. tc ∷ l) e
      extend refuse s e = ap (λ l. tc ∷ l) e
      extend run_it s e = ap (λ l. tc ∷ l) e

  merge-Answer :
      (pending : List (ToolCall × CallVerdict)) (earlier : List ToolCall)
      → Answer (calls_of pending) (merge pending (execute_each agent earlier (to_run pending)).0).0
        × ((merge pending (execute_each agent earlier (to_run pending)).0).1 ≡ true)
  unfolding merge execute_each
  merge-Answer [] earlier = (refl, refl)
  merge-Answer ((tc, skip) ∷ pending) earlier =
      let (rest, complete) = merge-Answer pending earlier in
      (
        (
          duplicate,
          (merge pending (execute_each agent earlier (to_run pending)).0).0,
          refl,
          tt,
          rest,
        ),
        complete,
      )
  merge-Answer ((tc, refuse) ∷ pending) earlier =
      let (rest, complete) = merge-Answer pending earlier in
      (
        (
          not_registered,
          (merge pending (execute_each agent earlier (to_run pending)).0).0,
          refl,
          tt,
          rest,
        ),
        complete,
      )
  merge-Answer ((tc, run_it) ∷ pending) earlier =
      let (rest, complete) = merge-Answer pending (tc ∷ earlier) in
      (
        (
          executed (agent.execute_tool earlier tc),
          (merge pending (execute_each agent (tc ∷ earlier) (to_run pending)).0).0,
          refl,
          (earlier, refl),
          rest,
        ),
        complete,
      )

  merge-short :
      (pending : List (ToolCall × CallVerdict)) (results : List R)
      → length results < length (to_run pending)
      → (merge pending results).1 ≡ false
  unfolding merge
  merge-short [] results h = absurd (omega arith)
  merge-short ((tc, skip) ∷ pending) results h = merge-short pending results h
  merge-short ((tc, refuse) ∷ pending) results h = merge-short pending results h
  merge-short ((tc, run_it) ∷ pending) [] h = refl
  merge-short ((tc, run_it) ∷ pending) (r ∷ results) h = merge-short pending results (omega arith)

  finish_round-Answer :
      (completion : Completion) (s : Scanned) (c : Conversation R)
      → to_run s.pending ≡ s.runnable
      → (messages : List (Message R)) × ((finish_round agent completion none s c).1.history
          ≡ (c.history ++ (assistant completion.content completion.tool_calls ∷ messages)))
        × Answer (calls_of s.pending) messages
        × ((finish_round agent completion none s c).0 ≡ goes_on s.called)
  unfolding finish_round only_restart round_end
  finish_round-Answer completion s c e =
      let own =
        subst
          (λ (l : List ToolCall).
            Answer (calls_of s.pending) (merge s.pending (execute_each agent c.calls l).0).0
            × ((merge s.pending (execute_each agent c.calls l).0).1 ≡ true))
          e (merge-Answer s.pending c.calls) in
      (
        (merge s.pending (execute_each agent c.calls s.runnable).0).0,
        refl,
        own.0,
        ap (λ complete. round_end complete none (execute_each agent c.calls s.runnable).0 s.called)
            own.1,
      )

  -- A round without an immediate restart adds the model's message and then one message for each of its
  -- tool calls, in their order, where a result is that of the execution of the same call; and the
  -- turn goes on.
  pub round-Answer :
      (completion : Completion) (called : List Signature) (c : Conversation R)
      → immediate_restart agent (scan agent called completion.tool_calls).runnable ≡ none
      → (messages : List (Message R)) × ((round agent completion called c).1.history
          ≡ (c.history ++ (assistant completion.content completion.tool_calls ∷ messages)))
        × Answer completion.tool_calls messages
        × ((round agent completion called c).0
            ≡ goes_on (scan agent called completion.tool_calls).called)
  unfolding round
  round-Answer completion called c e =
      let s = scan agent called completion.tool_calls in
      let (messages, added, answers, on) =
        finish_round-Answer completion s c (scan-to_run completion.tool_calls called) in
      let same = ap (λ o. finish_round agent completion o s c) e in
      (
        messages,
        ap (λ (r : RoundEnd R × Conversation R). r.1.history) same ∙ added,
        subst (λ l. Answer l messages) (scan-calls_of completion.tool_calls called) answers,
        ap (λ (r : RoundEnd R × Conversation R). r.0) same ∙ on,
      )

  -- If the calls to execute are two or more, and an immediate restart is among them, it is executed, and
  -- it alone, and then the turn breaks off with an exception.
  pub round-broken :
      (completion : Completion) (called : List Signature) (c : Conversation R) (tc : ToolCall)
      → immediate_restart agent (scan agent called completion.tool_calls).runnable ≡ some tc
      → 1 < length (scan agent called completion.tool_calls).runnable
      → ((round agent completion called c).0 ≡ ends broken)
        × ((round agent completion called c).1.calls ≡ tc ∷ c.calls)
  unfolding round finish_round only_restart execute_each round_end
  round-broken completion called c tc e two =
      let s = scan agent called completion.tool_calls in
      let same = ap (λ o. finish_round agent completion o s c) e in
      let short =
        merge-short s.pending (agent.execute_tool c.calls tc ∷ [])
          (subst (λ l. 1 < length l) (sym (scan-to_run completion.tool_calls called)) two) in
      (
        ap (λ (r : RoundEnd R × Conversation R). r.0) same
            ∙ ap
                (λ complete.
                  round_end complete (some tc) (agent.execute_tool c.calls tc ∷ []) s.called)
                short,
        ap (λ (r : RoundEnd R × Conversation R). r.1.calls) same,
      )
