-- ===== src/Monitoring/Examples.antt =====
-- The theorems of monitoring at concrete inputs.
use devops_agent.Prelude.{◌≤◌, ◌≡◌, refl, true, false, some, List, [], ◌∷◌, arith}
use devops_agent.Text.{Text, text_eq, codes}
use devops_agent.Dict.{lookup}
use devops_agent.Monitoring.Thresholds.{ThresholdConfig}
use devops_agent.Monitoring.Cooldown.{CooldownTracker, Anomalous, fire_times}
use devops_agent.Monitoring.Cooldown.Spacing.{SpacedFrom, fire_times-spaced}
use devops_agent.Monitoring.Incidents.{
  Anomaly, fingerprint_of, Incident, create_incident_from_anomaly, update_incident_with_anomaly,
  IncidentStore, get_by_fingerprint, active_count, warning, find_match, is_match, is_open,
  add_timeline,
}
use devops_agent.Monitoring.Deduplication.{find_or_create_incident, deduplicate_all, new_store}
use devops_agent.Monitoring.Deduplication.Runs.{WellFormed, deduplicate_all-new_store}
use devops_agent.Monitoring.Deduplication.Unique.{open_count, find_or_create_incident_unique}
use devops_agent.Monitoring.Deduplication.Found.{
  find_or_create_incident-new, find_or_create_incident-existing,
}
use devops_agent.Monitoring.Deduplication.Bounded.{find_or_create_incident-bounded}

abbrev config : ThresholdConfig
config = record {
  cooldown_seconds = 300;
  escalation_cooldown_seconds = 600;
  max_concurrent_incidents = 1;
}

abbrev tracker : CooldownTracker
tracker = record { config = config; last_fired = []; fire_count = []; last_recovery = [] }

abbrev cpu : Text
cpu = codes "cpu"

abbrev cpu_high : Anomaly
cpu_high = record {
  id = codes "anom-1";
  host = codes "vps";
  component = codes "host";
  component_type = codes "system";
  anomaly_type = codes "cpu_high";
  metric_name = cpu;
  severity = warning;
  message = codes "CPU at 91%";
  evidence = codes "91" ∷ [];
}

abbrev no_incidents : IncidentStore
no_incidents = record { active = []; history = []; max_history = 100 }

abbrev cpu_incident : Incident
unfolding create_incident_from_anomaly add_timeline fingerprint_of
cpu_incident = create_incident_from_anomaly 1000 (codes "MON-1") cpu_high

abbrev one_incident : IncidentStore
one_incident = record {
  active = (codes "MON-1", cpu_incident) ∷ [];
  history = [];
  max_history = 100;
}

-- three anomalies, of which the second comes too early
abbrev cpu_thrice : List Anomalous
cpu_thrice =
    record { now = 1000; delay = 2; fingerprint = cpu }
    ∷ record { now = 1300; delay = 1; fingerprint = cpu }
    ∷ record { now = 1302; delay = 0; fingerprint = cpu }
    ∷ []

fire_times-spaced_example : SpacedFrom 300 300 (fire_times cpu cpu_thrice tracker)
unfolding lookup
fire_times-spaced_example = fire_times-spaced cpu cpu_thrice tracker

find_or_create_incident_unique_example :
    open_count
      (fingerprint_of cpu_high)
      (find_or_create_incident 1400 (codes "MON-2") config cpu_high one_incident).1.active
    ≤ 1
unfolding is_match is_open create_incident_from_anomaly fingerprint_of text_eq add_timeline
find_or_create_incident_unique_example =
    find_or_create_incident_unique (fingerprint_of cpu_high) 1400 (codes "MON-2") config cpu_high
      one_incident (omega arith)

find_or_create_incident-new_example :
    ((find_or_create_incident 1000 (codes "MON-1") config cpu_high no_incidents).0 ≡ true)
    × (get_by_fingerprint
          (fingerprint_of cpu_high)
          (find_or_create_incident 1000 (codes "MON-1") config cpu_high no_incidents).1
        ≡ some (create_incident_from_anomaly 1000 (codes "MON-1") cpu_high))
unfolding get_by_fingerprint find_match
find_or_create_incident-new_example =
    find_or_create_incident-new 1000 (codes "MON-1") config cpu_high no_incidents refl

find_or_create_incident-existing_example :
    ((find_or_create_incident 1400 (codes "MON-2") config cpu_high one_incident).0 ≡ false)
    × (get_by_fingerprint
          (fingerprint_of cpu_high)
          (find_or_create_incident 1400 (codes "MON-2") config cpu_high one_incident).1
        ≡ some (update_incident_with_anomaly 1400 cpu_high cpu_incident))
unfolding get_by_fingerprint find_match is_match is_open fingerprint_of create_incident_from_anomaly
    add_timeline text_eq
find_or_create_incident-existing_example =
    find_or_create_incident-existing 1400 (codes "MON-2") config cpu_high cpu_incident one_incident
      (refl, tt) refl

find_or_create_incident-bounded_example :
    active_count (find_or_create_incident 1400 (codes "MON-2") config cpu_high one_incident).1 ≤ 1
unfolding create_incident_from_anomaly add_timeline cpu_incident
find_or_create_incident-bounded_example =
    find_or_create_incident-bounded 1400 (codes "MON-2") config cpu_high one_incident (refl, tt)
      (omega arith)

deduplicate_all-new_store_example : WellFormed config (
    deduplicate_all config
      (record { now = 1000; id = codes "MON-1"; anomaly = cpu_high }
        ∷ record { now = 1400; id = codes "MON-2"; anomaly = cpu_high }
        ∷ [])
      (new_store 100))
deduplicate_all-new_store_example = deduplicate_all-new_store config 100 (
    record { now = 1000; id = codes "MON-1"; anomaly = cpu_high }
    ∷ record { now = 1400; id = codes "MON-2"; anomaly = cpu_high }
    ∷ [])
