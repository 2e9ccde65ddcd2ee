-- ===== src/Monitoring/Thresholds.antt =====
-- The thresholds (app/monitoring/thresholds.py) that cooldowns and incidents use.
use devops_agent.Prelude.{ℕ}

pub record ThresholdConfig : Type 0 where
  pub cooldown_seconds : ℕ
  pub escalation_cooldown_seconds : ℕ
  pub max_concurrent_incidents : ℕ
