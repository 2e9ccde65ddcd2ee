-- ===== src/Monitoring/Deduplication/Runs.antt =====
-- What holds of the store after any sequence of anomalies.
use devops_agent.Prelude.{ℕ, ◌≤◌, max, List, [], ◌∷◌, arith}
use devops_agent.Text.{Text}
use devops_agent.Monitoring.Thresholds.{ThresholdConfig}
use devops_agent.Monitoring.Incidents.{IncidentStore, active_count}
use devops_agent.Monitoring.Deduplication.{
  Arrival, find_or_create_incident, deduplicate_all, new_store,
}
use devops_agent.Monitoring.Deduplication.Keyed.{WellKeyed, find_or_create_incident-WellKeyed}
use devops_agent.Monitoring.Deduplication.Unique.{open_count, find_or_create_incident_unique}
use devops_agent.Monitoring.Deduplication.Bounded.{find_or_create_incident-bounded}

-- each incident at its identifier, no more of them than the limit, and no fingerprint twice open
abbrev pub WellFormed : ThresholdConfig → IncidentStore → Type 0
WellFormed config s =
    WellKeyed s.active
    × (active_count s ≤ max 1 config.max_concurrent_incidents)
    × ((k : Text) → open_count k s.active ≤ 1)

find_or_create_incident-WellFormed :
    (x : Arrival) (config : ThresholdConfig) (s : IncidentStore)
    → WellFormed config s
    → WellFormed config (find_or_create_incident x.now x.id config x.anomaly s).1
find_or_create_incident-WellFormed x config s (keyed, small, once) = (
  find_or_create_incident-WellKeyed x.now x.id config x.anomaly s keyed,
  find_or_create_incident-bounded x.now x.id config x.anomaly s keyed small,
  λ k. find_or_create_incident_unique k x.now x.id config x.anomaly s (once k),
)

deduplicate_all-WellFormed :
    (config : ThresholdConfig) (xs : List Arrival) (s : IncidentStore)
    → WellFormed config s
    → WellFormed config (deduplicate_all config xs s)
unfolding deduplicate_all
deduplicate_all-WellFormed config [] s h = h
deduplicate_all-WellFormed config (x ∷ xs) s h =
    deduplicate_all-WellFormed config xs _ (find_or_create_incident-WellFormed x config s h)

-- From a new store on, whatever anomalies come, each incident stands at its identifier, there are
-- no more active ones than the limit (or one, where the limit is zero), and no fingerprint has two
-- open incidents.
pub deduplicate_all-new_store :
    (config : ThresholdConfig) (max_history : ℕ) (xs : List Arrival)
    → WellFormed config (deduplicate_all config xs (new_store max_history))
unfolding new_store
deduplicate_all-new_store config max_history xs =
    deduplicate_all-WellFormed config xs (new_store max_history) (tt, omega arith, λ k. omega arith)
