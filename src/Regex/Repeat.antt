-- ===== src/Regex/Repeat.antt =====
-- Bounded repetition of a class, `c{1,n}`, and literal texts: the readings in closed form.
use devops_agent.Prelude.{
  ℕ, zero, suc, ◌≤◌, ◌≡◌, refl, ap, ◌∙◌, Bool, true, ◌⊎◌, inl, inr, [], ◌∷◌, ◌++◌, arith, All,
  length,
}
use devops_agent.Text.{Text}
use devops_agent.Regex.{cls, repeat1, at_dollar, full_match}
use devops_agent.Regex.Language.{Runs, RunsUpto, match_sound, match_complete}

-- the end of a text that `$` accepts: nothing, or one newline
abbrev pub IsLineEnd : Text → Type 0
IsLineEnd t = (t ≡ []) ⊎ (t ≡ 10 ∷ [])

pub at_dollar-IsLineEnd : (t : Text) → at_dollar t ≡ true → IsLineEnd t
unfolding at_dollar
at_dollar-IsLineEnd [] h = inl refl
at_dollar-IsLineEnd (c ∷ []) h = inr (ground arith)
at_dollar-IsLineEnd (c ∷ d ∷ t) h = cc

pub IsLineEnd-at_dollar : (t : Text) → IsLineEnd t → at_dollar t ≡ true
unfolding at_dollar
IsLineEnd-at_dollar t (inl e) = rw e
IsLineEnd-at_dollar t (inr e) = rw e

module _ (p : ℕ → Bool) where
  -- at least one and at most n code points of the class
  abbrev pub IsRun : ℕ → Text → Type 0
  IsRun n w = All (λ c. p c ≡ true) w × (1 ≤ length w) × (length w ≤ n)

  RunsUpto-cls :
      (n : ℕ) (s t : Text)
      → RunsUpto (Runs (cls p)) n s t
      → (w : Text) × (s ≡ w ++ t) × All (λ c. p c ≡ true) w × (length w ≤ n)
  RunsUpto-cls zero s t e = ([], e, tt, omega arith)
  RunsUpto-cls (suc n) s t (inl e) = ([], e, tt, omega arith)
  RunsUpto-cls (suc n) s t (inr (m, (c, e, pc), rs)) =
      let (w, f, ok, short) = RunsUpto-cls n m t rs in
      (c ∷ w, e ∙ ap (λ x. c ∷ x) f, (pc, ok), omega arith)

  cls-RunsUpto :
      (n : ℕ) (w t : Text)
      → All (λ c. p c ≡ true) w
      → length w ≤ n
      → RunsUpto (Runs (cls p)) n (w ++ t) t
  cls-RunsUpto zero [] t ok short = refl
  cls-RunsUpto zero (c ∷ w) t ok short = absurd (omega arith)
  cls-RunsUpto (suc n) [] t ok short = inl refl
  cls-RunsUpto (suc n) (c ∷ w) t ok short =
      inr (w ++ t, (c, refl, ok.0), cls-RunsUpto n w t ok.1 (omega arith))

  pub Runs-repeat1 :
      (n : ℕ) (s t : Text) → Runs (repeat1 p n) s t → (w : Text) × (s ≡ w ++ t) × IsRun (suc n) w
  Runs-repeat1 n s t (m, (c, e, pc), rs) =
      let (w, f, ok, short) = RunsUpto-cls n m t rs in
      (c ∷ w, e ∙ ap (λ x. c ∷ x) f, ((pc, ok), omega arith, omega arith))

  pub repeat1-Runs : (n : ℕ) (w t : Text) → IsRun (suc n) w → Runs (repeat1 p n) (w ++ t) t
  repeat1-Runs n [] t (ok, some_char, short) = absurd (omega arith)
  repeat1-Runs n (c ∷ w) t (ok, some_char, short) =
      (w ++ t, (c, refl, ok.0), cls-RunsUpto n w t ok.1 (omega arith))

  -- `^c{1,n}$` accepts the runs of the class, and a run with one newline behind it.
  pub full_match-repeat1 :
      (n : ℕ) (s : Text)
      → full_match (repeat1 p n) s ≡ true
      → (w : Text) × (t : Text) × (s ≡ w ++ t) × IsRun (suc n) w × IsLineEnd t
  unfolding full_match
  full_match-repeat1 n s h =
      let (t, r, end) = match_sound (repeat1 p n) at_dollar s h in
      let (w, e, run) = Runs-repeat1 n s t r in (w, t, e, run, at_dollar-IsLineEnd t end)

  pub repeat1-full_match :
      (n : ℕ) (w t : Text)
      → IsRun (suc n) w
      → IsLineEnd t
      → full_match (repeat1 p n) (w ++ t) ≡ true
  unfolding full_match
  repeat1-full_match n w t run end =
      match_complete (repeat1 p n) at_dollar (w ++ t) t (repeat1-Runs n w t run)
        (IsLineEnd-at_dollar t end)
