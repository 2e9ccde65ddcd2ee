-- ===== src/Control/Risk.antt =====
-- The risk score (app/control/risk.py). The source's scores have two decimals at most and its
-- weights one: a score is a number of hundredths, a weight a number of tenths, and sums are exact.
-- (The floats of the source round; where a sum lies exactly on a threshold they may fall below it.)
pub mod Bounds
pub mod Monotone
use devops_agent.Prelude.{
  ℕ, ◌+◌, ◌-◌, ◌*◌, min, Bool, true, false, ◌&&◌, List, [], ◌∷◌, leb, if◌then◌else◌,
}
use devops_agent.Text.{Unicode, Text, codes, text_eq, is_in, lower_text}
use devops_agent.Control.State.{RiskLevel, low, medium, high, critical}

pub record RiskFactor : Type 0 where
  pub score : ℕ
  pub weight : ℕ

abbrev pub weighted_score : RiskFactor → ℕ
weighted_score f = f.score * f.weight

pub record RiskProfile : Type 0 where
  pub severity : ℕ
  pub blast_radius : ℕ
  pub reversibility : ℕ
  pub production_impact : ℕ
  pub destructive_potential : ℕ

abbrev profile : ℕ → ℕ → ℕ → ℕ → ℕ → RiskProfile
profile s b r p d = record {
  severity = s;
  blast_radius = b;
  reversibility = r;
  production_impact = p;
  destructive_potential = d;
}

abbrev check_status_profile : RiskProfile
check_status_profile = profile 0 0 100 0 0

-- `_ACTION_RISK_PROFILES.get(action_type, <the profile of check_status>)`
unfoldable pub profile_of : Text → RiskProfile
profile_of t =
    if text_eq t (codes "start_container")
    then profile 40 30 80 40 10
    else (if text_eq t (codes "stop_container")
        then profile 60 40 80 60 20
        else (if text_eq t (codes "restart_container")
            then profile 40 30 80 40 10
            else (if text_eq t (codes "restart_service")
                then profile 40 30 80 40 10
                else (if text_eq t (codes "check_status")
                    then check_status_profile
                    else (if text_eq t (codes "delete_resource")
                        then profile 90 80 10 90 90
                        else (if text_eq t (codes "modify_config")
                            then profile 60 50 60 60 40
                            else check_status_profile))))))

abbrev pub high_risk_targets : List Text
high_risk_targets =
    codes "mysql"
    ∷ codes "postgres"
    ∷ codes "postgresql"
    ∷ codes "redis"
    ∷ codes "mongodb"
    ∷ codes "elasticsearch"
    ∷ codes "kafka"
    ∷ []

abbrev pub lifecycle_actions : List Text
lifecycle_actions =
    codes "start_container"
    ∷ codes "stop_container"
    ∷ codes "restart_container"
    ∷ codes "restart_service"
    ∷ []

pub record RiskContext : Type 0 where
  pub confidence : ℕ
  pub affected_dependencies : ℕ

unfoldable pub blast_score : Bool → ℕ → ℕ
blast_score high_target blast = if high_target then min 100 (blast + 30) else blast

-- the factors, in the order of the source
unfoldable pub risk_factors : RiskProfile → Bool → RiskContext → List RiskFactor
unfolding blast_score
risk_factors p high_target c =
    record { score = p.severity; weight = 10 }
    ∷ record { score = blast_score high_target p.blast_radius; weight = 12 }
    ∷ record { score = 100 - p.reversibility; weight = 15 }
    ∷ record { score = p.production_impact; weight = 13 }
    ∷ record { score = p.destructive_potential; weight = 20 }
    ∷ record { score = 100 - c.confidence; weight = 8 }
    ∷ record { score = min 100 (c.affected_dependencies * 20); weight = 10 }
    ∷ []

abbrev pub total_weight : List RiskFactor → ℕ
total_weight [] = 0
total_weight (f ∷ fs) = f.weight + total_weight fs

abbrev pub weighted_sum : List RiskFactor → ℕ
weighted_sum [] = 0
weighted_sum (f ∷ fs) = weighted_score f + weighted_sum fs

-- The level of the score `sum / total`, in hundredths: the thresholds are multiplied out.
unfoldable pub level_of : ℕ → ℕ → RiskLevel
level_of sum total =
    if leb (75 * total) sum
    then critical
    else (if leb (50 * total) sum then high else (if leb (30 * total) sum then medium else low))

pub record RiskAssessment : Type 0 where
  pub factors : List RiskFactor
  pub risk_level : RiskLevel
  pub reversible : Bool
  pub rollback_available : Bool

unfoldable pub assess_profile : Text → RiskProfile → Bool → RiskContext → RiskAssessment
unfolding risk_factors level_of
assess_profile action_type p high_target c =
    let fs = risk_factors p high_target c in
    record {
      factors = fs;
      risk_level = level_of (weighted_sum fs) (total_weight fs);
      reversible = leb 50 p.reversibility;
      rollback_available = leb 50 p.reversibility && is_in action_type lifecycle_actions;
    }

unfoldable pub is_high_risk_target : Unicode → Text → Bool
is_high_risk_target u target = is_in (lower_text u target) high_risk_targets

unfoldable pub assess_risk : Unicode → Text → Text → RiskContext → RiskAssessment
assess_risk u action_type target c =
    assess_profile action_type (profile_of action_type) (is_high_risk_target u target) c
