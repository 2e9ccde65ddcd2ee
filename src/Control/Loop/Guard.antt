-- ===== src/Control/Loop/Guard.antt =====
-- Which histories of calls the action flow may leave behind, and how many mutations these hold.
use devops_agent.Prelude.{
  ℕ, suc, ◌*◌, ◌≤◌, ◌≡◌, refl, true, false, [], ◌∷◌, ◌⊎◌, inl, inr, if◌then◌else◌, Bool-cases,
  arith,
}
use devops_agent.Text.{Text}
use devops_agent.Whitelist.{is_action_command_allowed}
use devops_agent.Control.Permissions.{ApprovalRequest}
use devops_agent.Control.Host.{Host, RunResult, asked, action_run, command_run, History}

-- the newest call is the operator's yes to a request for this very command
abbrev pub JustApproved : Host → Text → History → Type 0
JustApproved host c (asked request true ∷ h) =
    (request.command ≡ c) × (host.approve h request ≡ true)
JustApproved host c _ = ⊥

-- Since a run of `c` by an action, only commands that are no mutations were run.
abbrev pub Repeats : Host → Text → History → Type 0
Repeats host c (action_run d r ∷ h) = d ≡ c
Repeats host c (command_run d r ∷ h) =
    (is_action_command_allowed host.unicode d ≡ false) × Repeats host c h
Repeats host c _ = ⊥

-- Each command that an action sent is on the action whitelist, and was approved just before; each
-- other command is no mutation, or repeats, once, the action before it.
abbrev pub Guarded : Host → History → Type 0
Guarded host [] = Unit
Guarded host (action_run c r ∷ h) =
    JustApproved host c h × (is_action_command_allowed host.unicode c ≡ true) × Guarded host h
Guarded host (command_run c r ∷ h) =
    ((is_action_command_allowed host.unicode c ≡ false) ⊎ Repeats host c h) × Guarded host h
Guarded host (asked request answer ∷ h) = Guarded host h

-- how many commands the actions sent
abbrev pub actions_sent : History → ℕ
actions_sent [] = 0
actions_sent (action_run c r ∷ h) = suc (actions_sent h)
actions_sent (command_run c r ∷ h) = actions_sent h
actions_sent (asked request answer ∷ h) = actions_sent h

-- how many mutations were run: the commands that the actions sent, and the other commands on the
-- action whitelist
abbrev pub mutations : Host → History → ℕ
mutations host [] = 0
mutations host (action_run c r ∷ h) = suc (mutations host h)
mutations host (command_run c r ∷ h) =
    if is_action_command_allowed host.unicode c then suc (mutations host h) else mutations host h
mutations host (asked request answer ∷ h) = mutations host h

module _ (host : Host) where
  mutations-read :
      (c : Text) (r : RunResult) (h : History)
      → is_action_command_allowed host.unicode c ≡ false
      → mutations host (command_run c r ∷ h) ≡ mutations host h
  mutations-read c r h reads = rw reads refl

  mutations-command :
      (c : Text) (r : RunResult) (h : History)
      → mutations host (command_run c r ∷ h) ≤ suc (mutations host h)
  mutations-command c r h = elim (Bool-cases (is_action_command_allowed host.unicode c)) [
    | inl listed ↦ rw listed (omega arith)
    | inr reads ↦ rw reads (omega arith)
  ]

  -- the bound, and one that leaves room for a rollback where it may come
  twice :
      (h : History)
      → Guarded host h
      → (mutations host h ≤ 2 * actions_sent h)
        × ((c : Text) → Repeats host c h → suc (mutations host h) ≤ 2 * actions_sent h)
  twice [] g = (omega arith, λ c repeats. absurd repeats)
  twice (asked request answer ∷ h) g = ((twice h g).0, λ c repeats. absurd repeats)
  twice (action_run d r ∷ h) (told, listed, g) =
      let (bound, room) = twice h g in (omega arith, λ c repeats. omega arith)
  twice (command_run d r ∷ h) (inl reads, g) =
      let (bound, room) = twice h g in
      let same = mutations-read d r h reads in
      (omega (arith, same, bound), λ c (reads', repeats). omega (arith, same, room c repeats))
  twice (command_run d r ∷ h) (inr again, g) =
      let (bound, room) = twice h g in
      (
        omega (arith, mutations-command d r h, room d again),
        λ c (reads, repeats). omega (arith, mutations-read d r h reads, room c repeats),
      )

  -- A guarded history has at most two mutations for each command that an action sent.
  pub Guarded-twice : (h : History) → Guarded host h → mutations host h ≤ 2 * actions_sent h
  Guarded-twice h g = (twice h g).0

  nothing_sent :
      (h : History)
      → ((h' : History) (request : ApprovalRequest) → host.approve h' request ≡ false)
      → Guarded host h
      → actions_sent h ≡ 0
  nothing_sent [] no_one g = refl
  nothing_sent (action_run c r ∷ []) no_one g = absurd g.0
  nothing_sent (action_run c r ∷ asked request true ∷ h) no_one g = cc (no_one h request, g.0.1)
  nothing_sent (action_run c r ∷ asked request false ∷ h) no_one g = absurd g.0
  nothing_sent (action_run c r ∷ action_run d q ∷ h) no_one g = absurd g.0
  nothing_sent (action_run c r ∷ command_run d q ∷ h) no_one g = absurd g.0
  nothing_sent (command_run c r ∷ h) no_one g = nothing_sent h no_one g.1
  nothing_sent (asked request answer ∷ h) no_one g = nothing_sent h no_one g

  -- Where the operator never says yes, a guarded history has no mutation.
  pub Guarded-no_mutation :
      (h : History)
      → ((h' : History) (request : ApprovalRequest) → host.approve h' request ≡ false)
      → Guarded host h
      → mutations host h ≡ 0
  Guarded-no_mutation h no_one g = omega (arith, Guarded-twice h g, nothing_sent h no_one g)
