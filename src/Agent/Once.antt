-- ===== src/Agent/Once.antt =====
-- Which tool calls a turn executes: none twice, and registered ones only.
use devops_agent.Prelude.{
  ◌≡◌, refl, sym, ◌∙◌, true, false, List, [], ◌∷◌, All, map, any, arith, Bool-cases, inl, inr,
  if_true, if_false, if◌then◌else◌,
}
use devops_agent.Text.{text_eq_refl}
use devops_agent.Agent.{
  ToolCall, AgentConfig, Signature, same_signature, was_called, is_registered, CallVerdict, skip,
  refuse, run_it, add_pending, signature_of, verdict_on, remember, scan,
}

pub was_called_self : (s : Signature) (called : List Signature) → was_called s (s ∷ called) ≡ true
unfolding was_called same_signature any
was_called_self (n, a) called = rw (text_eq_refl n, text_eq_refl a) refl

module _ {R : Type 0} (agent : AgentConfig R) where
  -- what was called before is called still
  abbrev pub Extends : List Signature → List Signature → Type 0
  Extends called more = (s : Signature) → was_called s called ≡ true → was_called s more ≡ true

  -- the calls have new signatures, one after the other
  abbrev pub Fresh : List Signature → List ToolCall → Type 0
  Fresh called [] = Unit
  Fresh called (tc ∷ tcs) =
      (was_called (signature_of agent tc) called ≡ false)
      × Fresh (signature_of agent tc ∷ called) tcs

  -- of calls with the last one first, none has the signature of an earlier one
  abbrev pub Once : List ToolCall → Type 0
  Once [] = Unit
  Once (tc ∷ tcs) =
      (was_called (signature_of agent tc) (map (signature_of agent) tcs) ≡ false) × Once tcs

  pub Extends-cons :
      (s : Signature) (called more : List Signature)
      → Extends called more
      → Extends (s ∷ called) (s ∷ more)
  unfolding was_called any
  Extends-cons s called more h t e = elim (Bool-cases (same_signature s t)) [
    | inl same ↦ ground (arith, same)
    | inr other ↦
        let old : was_called t called ≡ true = ground arith in
        let still : was_called t more ≡ true = h t old in ground (arith, still)
  ]

  pub Extends-more : (s : Signature) (called : List Signature) → Extends called (s ∷ called)
  unfolding was_called any
  Extends-more s called t e = ground (arith, e)

  pub not_called :
      (s : Signature) (called more : List Signature)
      → Extends called more
      → was_called s more ≡ false
      → was_called s called ≡ false
  not_called s called more h e = elim (Bool-cases (was_called s called)) [
    | inl there ↦ let later = h s there in cc
    | inr absent ↦ absent
  ]

  pub Fresh-fewer :
      (called more : List Signature) (tcs : List ToolCall)
      → Extends called more
      → Fresh more tcs
      → Fresh called tcs
  Fresh-fewer called more [] h f = tt
  Fresh-fewer called more (tc ∷ tcs) h f = (
    not_called _ called more h f.0,
    Fresh-fewer (signature_of agent tc ∷ called) (signature_of agent tc ∷ more) tcs
        (Extends-cons (signature_of agent tc) called more h) f.1,
  )

  verdict_on-run_it :
      (called : List Signature) (tc : ToolCall)
      → verdict_on agent called tc ≡ run_it
      → (was_called (signature_of agent tc) called ≡ false)
        × (is_registered agent.allowed_tool_names tc.name ≡ true)
  unfolding verdict_on
  verdict_on-run_it called tc h = elim (Bool-cases (was_called (signature_of agent tc) called)) [
    | inl again ↦ let skipped : skip ≡ run_it = sym (if_true _ _ again) ∙ h in cc
    | inr new ↦
        let decided =
          sym (
            if_false {b = was_called (signature_of agent tc) called} skip
              (if is_registered agent.allowed_tool_names tc.name then run_it else refuse) new)
          ∙ h in
        elim (Bool-cases (is_registered agent.allowed_tool_names tc.name)) [
          | inl known ↦ (new, known)
          | inr unknown ↦ let refused : refuse ≡ run_it = sym (if_false _ _ unknown) ∙ decided in cc
        ]
  ]

  pub scan-Fresh :
      (tcs : List ToolCall) (called : List Signature)
      → Fresh called (scan agent called tcs).runnable
  unfolding scan
  scan-Fresh [] called = tt
  scan-Fresh (tc ∷ tcs) called =
      extend (verdict_on agent called tc) (scan-Fresh tcs) (λ h. (verdict_on-run_it called tc h).0)
    where
      extend :
          (v : CallVerdict)
          → ((called : List Signature) → Fresh called (scan agent called tcs).runnable)
          → (v ≡ run_it → was_called (signature_of agent tc) called ≡ false)
          → Fresh called (add_pending tc v (scan agent (remember agent v tc called) tcs)).runnable
      extend skip rest h = rest called
      extend refuse rest h =
          Fresh-fewer called (signature_of agent tc ∷ called) _
            (Extends-more (signature_of agent tc) called) (rest (signature_of agent tc ∷ called))
      extend run_it rest h = (h refl, rest (signature_of agent tc ∷ called))

  -- a call to execute is registered, and remembered by the end of the round
  abbrev pub Accepted : List Signature → ToolCall → Type 0
  Accepted called tc =
      (is_registered agent.allowed_tool_names tc.name ≡ true)
      × (was_called (signature_of agent tc) called ≡ true)

  pub scan-Extends :
      (tcs : List ToolCall) (called : List Signature)
      → Extends called (scan agent called tcs).called
  unfolding scan
  scan-Extends [] called s e = e
  scan-Extends (tc ∷ tcs) called s e = extend (verdict_on agent called tc) (scan-Extends tcs)
    where
      extend :
          (v : CallVerdict)
          → ((called : List Signature) → Extends called (scan agent called tcs).called)
          → was_called s (add_pending tc v (scan agent (remember agent v tc called) tcs)).called
            ≡ true
      extend skip rest = rest called s e
      extend refuse rest = rest (signature_of agent tc ∷ called) s (Extends-more _ called s e)
      extend run_it rest = rest (signature_of agent tc ∷ called) s (Extends-more _ called s e)

  pub scan-Accepted :
      (tcs : List ToolCall) (called : List Signature)
      → All (Accepted (scan agent called tcs).called) (scan agent called tcs).runnable
  unfolding scan
  scan-Accepted [] called = tt
  scan-Accepted (tc ∷ tcs) called =
      extend (verdict_on agent called tc) (scan-Accepted tcs)
        (λ h. (verdict_on-run_it called tc h).1)
    where
      extend :
          (v : CallVerdict)
          → ((called : List Signature)
              → All (Accepted (scan agent called tcs).called) (scan agent called tcs).runnable)
          → (v ≡ run_it → is_registered agent.allowed_tool_names tc.name ≡ true)
          → All
              (Accepted (add_pending tc v (scan agent (remember agent v tc called) tcs)).called)
              (add_pending tc v (scan agent (remember agent v tc called) tcs)).runnable
      extend skip rest h = rest called
      extend refuse rest h = rest (signature_of agent tc ∷ called)
      extend run_it rest h = (
        (h refl, scan-Extends tcs (signature_of agent tc ∷ called) _ (was_called_self _ called)),
        rest (signature_of agent tc ∷ called),
      )
