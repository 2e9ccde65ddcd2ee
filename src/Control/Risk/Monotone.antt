-- ===== src/Control/Risk/Monotone.antt =====
-- How the score moves with the confidence and with the target.
use devops_agent.Prelude.{ℕ, ◌≤◌, ◌≡◌, Bool, true, arith}
use devops_agent.Text.{Unicode, Text}
use devops_agent.Control.State.{RiskLevel, low, medium, high, critical}
use devops_agent.Control.Risk.{
  RiskProfile, RiskContext, profile_of, risk_factors, weighted_sum, level_of, assess_profile,
  is_high_risk_target, assess_risk,
}

abbrev pub rank : RiskLevel → ℕ
rank low = 0
rank medium = 1
rank high = 2
rank critical = 3

level_of_mono : (a b total : ℕ) → a ≤ b → rank (level_of a total) ≤ rank (level_of b total)
unfolding level_of
level_of_mono a b total h = ground arith

factors_mono :
    (p : RiskProfile) (h k : Bool) (c d : RiskContext)
    → (h ≡ true → k ≡ true)
    → p.blast_radius ≤ 100
    → d.confidence ≤ c.confidence
    → c.affected_dependencies ≤ d.affected_dependencies
    → weighted_sum (risk_factors p h c) ≤ weighted_sum (risk_factors p k d)
unfolding risk_factors
factors_mono p h k c d imp small less more = ground arith

profile_of-blast : (t : Text) → (profile_of t).blast_radius ≤ 100
unfolding profile_of
profile_of-blast t = ground arith

-- Less confidence, more affected dependencies, or a high-risk target in place of one that is not,
-- never lower the risk level of an action.
pub assess_risk_mono :
    (u : Unicode) (action_type target target' : Text) (c d : RiskContext)
    → (is_high_risk_target u target ≡ true → is_high_risk_target u target' ≡ true)
    → d.confidence ≤ c.confidence
    → c.affected_dependencies ≤ d.affected_dependencies
    → rank (assess_risk u action_type target c).risk_level
      ≤ rank (assess_risk u action_type target' d).risk_level
unfolding assess_risk assess_profile
assess_risk_mono u t target target' c d imp less more =
    level_of_mono _ _ 88 (factors_mono (profile_of t) _ _ c d imp (profile_of-blast t) less more)
