-- ===== src/Monitoring/Deduplication.antt =====
-- Deduplication of anomalies (app/monitoring/deduplication.py). An incident of the store is one
-- shared object, so an update of it is made at its key in the store.
pub mod Unique
pub mod Found
pub mod Keyed
pub mod Bounded
pub mod Runs
use devops_agent.Prelude.{
  ℕ, ◌+◌, Bool, true, false, Option, none, some, List, [], ◌∷◌, map, keep_if, leb, ltb,
  if◌then◌else◌,
}
use devops_agent.Text.{Text, codes, text_eq}
use devops_agent.Dict.{Dict}
use devops_agent.Monitoring.Thresholds.{ThresholdConfig}
use devops_agent.Monitoring.Incidents.{
  Severity, Anomaly, fingerprint_of, Incident, create_incident_from_anomaly,
  update_incident_with_anomaly, IncidentStore, add, active_count, get_by_fingerprint, close, info,
}

-- a change of the object at a key
unfoldable pub modify {ℓ} : {V : Type ℓ} → Text → (V → V) → Dict V → Dict V
modify k f [] = []
modify k f ((j, v) ∷ d) = (j, (if text_eq j k then f v else v)) ∷ modify k f d

unfoldable pub is_info : Incident → Bool
is_info i = elim i.severity [ info ↦ true | _ ↦ false ]

-- `min(…, key=lambda i: i.created_at)`: the first of the least
unfoldable pub min_created : Incident → List Incident → Incident
min_created best [] = best
min_created best (i ∷ is) = min_created (if ltb i.created_at best.created_at then i else best) is

unfoldable pub pick : List Incident → Option Incident
unfolding min_created
pick [] = none
pick (i ∷ is) = some (min_created i is)

-- `info_severity or active`, and the oldest of them; none where nothing is active
unfoldable pub to_evict : List Incident → Option Incident
unfolding pick keep_if is_info
to_evict active = elim (keep_if is_info active) [ [] ↦ pick active | (i ∷ is) ↦ pick (i ∷ is) ]

unfoldable pub evict : ℕ → Option Incident → IncidentStore → IncidentStore
evict now none store = store
evict now (some oldest) store = close now oldest.id (codes "Evicted due to incident limit") store

unfoldable pub make_room : ℕ → ThresholdConfig → IncidentStore → IncidentStore
unfolding evict to_evict
make_room now config store =
    if leb config.max_concurrent_incidents (active_count store)
    then evict now (to_evict (map (λ entry. entry.1) store.active)) store
    else store

-- the incident that is found, the cooldown of its last update, and the update
unfoldable pub update_existing :
    ℕ → ThresholdConfig → Anomaly → Incident → IncidentStore → IncidentStore
unfolding modify
update_existing now config a existing store =
    if ltb now (existing.updated_at + config.cooldown_seconds) then store else record store {
      active = modify existing.id (update_incident_with_anomaly now a) store.active;
    }

unfoldable pub create : ℕ → Text → ThresholdConfig → Anomaly → IncidentStore → IncidentStore
unfolding make_room
create now id config a store =
    add (create_incident_from_anomaly now id a) (make_room now config store)

-- `id` names the incident if one is made. The result is `is_new` with the store; the incident is
-- the store's with the anomaly's fingerprint.
unfoldable pub found_or_created :
    ℕ → Text → ThresholdConfig → Anomaly → Option Incident → IncidentStore → Bool × IncidentStore
unfolding update_existing create
found_or_created now id config a (some existing) store =
    (false, update_existing now config a existing store)
found_or_created now id config a none store = (true, create now id config a store)

unfoldable pub find_or_create_incident :
    ℕ → Text → ThresholdConfig → Anomaly → IncidentStore → Bool × IncidentStore
unfolding found_or_created
find_or_create_incident now id config a store =
    found_or_created now id config a (get_by_fingerprint (fingerprint_of a) store) store

-- an anomaly, when it comes to be deduplicated, and the identifier a new incident would get
pub record Arrival : Type 0 where
  pub now : ℕ
  pub id : Text
  pub anomaly : Anomaly

-- The calls of `find_or_create_incident`, one after the other. In `run_cycle` the cooldown leaves some
-- of them out; the correlation and the confirmation behind each are not modelled.
unfoldable pub deduplicate_all : ThresholdConfig → List Arrival → IncidentStore → IncidentStore
deduplicate_all config [] store = store
deduplicate_all config (x ∷ xs) store =
    deduplicate_all config xs (find_or_create_incident x.now x.id config x.anomaly store).1

-- `IncidentStore(max_history=…)`
unfoldable pub new_store : ℕ → IncidentStore
new_store max_history = record { active = []; history = []; max_history = max_history }
