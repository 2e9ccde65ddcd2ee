-- ===== src/Control/State.antt =====
-- The enumerations of app/control/state.py. Each is a `str` enum, compared by value.
use devops_agent.Prelude.{Bool, true, false}

pub data Phase : Type 0 where
  idle observe build_state retrieve_memory generate_hypotheses create_plan risk_assessment : Phase
  approval execute verify rollback record_outcome completed failed : Phase

pub data ApprovalStatus : Type 0 where
  pending approved denied blocked auto_approved : ApprovalStatus

pub data RiskLevel : Type 0 where
  low medium high critical : RiskLevel

pub data OutcomeStatus : Type 0 where
  success failed degraded rolled_back blocked unknown : OutcomeStatus

abbrev pub is_low : RiskLevel → Bool
is_low RiskLevel.low = true
is_low _ = false
