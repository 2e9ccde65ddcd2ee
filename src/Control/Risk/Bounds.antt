-- ===== src/Control/Risk/Bounds.antt =====
-- The range of the score, and the levels that the executable actions can have.
use devops_agent.Prelude.{ℕ, ◌*◌, ◌≤◌, ◌≡◌, Bool, true, ◌⊎◌, arith, leb}
use devops_agent.Text.{Unicode, Text, text_eq, is_in, is_in-All}
use devops_agent.Control.State.{low, medium}
use devops_agent.Control.Risk.{
  RiskProfile, RiskContext, profile_of, lifecycle_actions, risk_factors, total_weight, weighted_sum,
  level_of, assess_profile, is_high_risk_target, assess_risk,
}

-- the two profiles of the executable actions
abbrev IsModerate : RiskProfile → Type 0
IsModerate p =
    (p.severity ≤ 60)
    × (p.blast_radius ≤ 40)
    × (p.reversibility ≡ 80)
    × (p.production_impact ≤ 60)
    × (p.destructive_potential ≤ 20)

profile_of-IsModerate : (t : Text) → is_in t lifecycle_actions ≡ true → IsModerate (profile_of t)
unfolding profile_of text_eq
profile_of-IsModerate t h =
    is_in-All (λ a. IsModerate (profile_of a)) t lifecycle_actions (omega arith) h

moderate-sum :
    (p : RiskProfile) (high_target : Bool) (c : RiskContext)
    → IsModerate p
    → c.affected_dependencies ≡ 0
    → weighted_sum (risk_factors p high_target c) ≤ 3720
unfolding risk_factors
moderate-sum p high_target c m none_affected = ground arith

moderate-level : (sum : ℕ) → sum ≤ 3720 → (level_of sum 88 ≡ low) ⊎ (level_of sum 88 ≡ medium)
unfolding level_of
moderate-level sum h = ground arith

moderate-reversible : (p : RiskProfile) → IsModerate p → leb 50 p.reversibility ≡ true
moderate-reversible p m = ground arith

-- An executable action that affects no known dependency has a low or medium risk, whatever its
-- target and however low the confidence; it counts as reversible, with a rollback.
pub assess_risk-lifecycle :
    (u : Unicode) (action_type target : Text) (c : RiskContext)
    → is_in action_type lifecycle_actions ≡ true
    → c.affected_dependencies ≡ 0
    → let r = assess_risk u action_type target c in
      ((r.risk_level ≡ low) ⊎ (r.risk_level ≡ medium))
      × (r.reversible ≡ true)
      × (r.rollback_available ≡ true)
unfolding assess_risk assess_profile
assess_risk-lifecycle u t target c listed alone =
    let p = profile_of t in
    let moderate = profile_of-IsModerate t listed in
    let reversible = moderate-reversible p moderate in
    (
      moderate-level _ (moderate-sum p (is_high_risk_target u target) c moderate alone),
      reversible,
      rw (reversible, listed),
    )

-- The weighted sum of the factors is at most the total weight times a hundred.
pub assess_risk-score_bound :
    (u : Unicode) (action_type target : Text) (c : RiskContext)
    → weighted_sum (assess_risk u action_type target c).factors
      ≤ 100 * total_weight (assess_risk u action_type target c).factors
unfolding assess_risk assess_profile risk_factors profile_of
assess_risk-score_bound u t target c = ground arith
