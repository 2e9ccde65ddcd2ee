-- ===== src/Monitoring/Incidents.antt =====
-- Incidents and their store (app/monitoring/incidents.py, and the incident part of
-- app/monitoring/models.py). The clock and a new incident's identifier are arguments; one operation
-- reads the clock once. Fields that no operation here touches are left out, and `max_active`, which
-- nothing reads.
use devops_agent.Prelude.{
  ℕ, Bool, true, false, ◌&&◌, Option, none, some, List, [], ◌∷◌, ◌++◌, length, ltb, if◌then◌else◌,
}
use devops_agent.Text.{Text, codes, text_eq}
use devops_agent.Dict.{Dict, lookup, insert, remove}

pub data Severity : Type 0 where
  info warning critical : Severity

pub data IncidentState : Type 0 where
  detected investigating confirmed mitigating resolved failed suppressed closed : IncidentState

pub record Anomaly : Type 0 where
  pub id : Text
  pub host : Text
  pub component : Text
  pub component_type : Text
  pub anomaly_type : Text
  pub metric_name : Text
  pub severity : Severity
  pub message : Text
  pub evidence : List Text

unfoldable pub fingerprint_of : Anomaly → Text
fingerprint_of a =
    a.host ++ codes "|" ++ a.component ++ codes "|" ++ a.anomaly_type ++ codes "|" ++ a.metric_name

pub record TimelineEvent : Type 0 where
  pub timestamp : ℕ
  pub event : Text
  pub detail : Text

pub record Incident : Type 0 where
  pub id : Text
  pub created_at : ℕ
  pub updated_at : ℕ
  pub closed_at : Option ℕ
  pub state : IncidentState
  pub severity : Severity
  pub host : Text
  pub component : Text
  pub component_type : Text
  pub anomaly_type : Text
  pub initial_event_id : Text
  pub detection_reason : Text
  pub evidence : List Text
  pub anomaly_ids : List Text
  pub timeline : List TimelineEvent
  pub resolution : Text
  pub fingerprint : Text

unfoldable pub severity_text : Severity → Text
severity_text info = codes "info"
severity_text warning = codes "warning"
severity_text critical = codes "critical"

-- `Incident.add_timeline`
unfoldable pub add_timeline : ℕ → Text → Text → Incident → Incident
add_timeline now event detail i = record i {
  timeline = i.timeline ++ record { timestamp = now; event = event; detail = detail } ∷ [];
  updated_at = now;
}

unfoldable pub create_incident_from_anomaly : ℕ → Text → Anomaly → Incident
unfolding add_timeline
create_incident_from_anomaly now id a =
    let new : Incident = record {
      id = id;
      created_at = now;
      updated_at = now;
      closed_at = none;
      state = detected;
      severity = a.severity;
      host = a.host;
      component = a.component;
      component_type = a.component_type;
      anomaly_type = a.anomaly_type;
      initial_event_id = a.id;
      detection_reason = a.message;
      evidence = [];
      anomaly_ids = [];
      timeline = [];
      resolution = [];
      fingerprint = fingerprint_of a;
    } in
    let told =
      add_timeline now (codes "anomaly_confirmed") (codes "Severity: " ++ severity_text a.severity)
        (add_timeline now (codes "detected") a.message new) in
    record told { evidence = a.evidence; anomaly_ids = a.id ∷ [] }

-- `severity_order`
unfoldable pub severity_order : Severity → ℕ
severity_order info = 0
severity_order warning = 1
severity_order critical = 2

-- the part of `update_incident_with_anomaly` on the severity
unfoldable pub escalate : ℕ → Severity → Incident → Incident
unfolding add_timeline severity_order
escalate now severity i =
    if ltb (severity_order i.severity) (severity_order severity)
    then add_timeline now (codes "severity_escalated")
        (severity_text i.severity ++ codes " → " ++ severity_text severity)
        (record i { severity = severity })
    else i

unfoldable pub update_incident_with_anomaly : ℕ → Anomaly → Incident → Incident
unfolding add_timeline escalate
update_incident_with_anomaly now a i =
    let extended = record i {
      anomaly_ids = i.anomaly_ids ++ a.id ∷ [];
      evidence = i.evidence ++ a.evidence;
    } in
    add_timeline now (codes "anomaly_added") a.message (escalate now a.severity extended)

unfoldable pub resolve_incident : ℕ → Text → Incident → Incident
unfolding add_timeline
resolve_incident now resolution i =
    record (add_timeline now (codes "resolved") resolution
      (record i { state = resolved; resolution = resolution })) {
        closed_at = some now;
        updated_at = now;
      }

unfoldable pub suppress_incident : ℕ → Text → Incident → Incident
unfolding add_timeline
suppress_incident now reason i =
    add_timeline now (codes "suppressed") reason (record i { state = suppressed })

pub record IncidentStore : Type 0 where
  pub active : Dict Incident
  pub history : List Incident
  pub max_history : ℕ

unfoldable pub add : Incident → IncidentStore → IncidentStore
add i store = record store { active = insert i.id i store.active }

abbrev pub active_count : IncidentStore → ℕ
active_count store = length store.active

unfoldable pub is_open : IncidentState → Bool
is_open closed = false
is_open resolved = false
is_open suppressed = false
is_open _ = true

-- the test of `get_by_fingerprint` on one incident
unfoldable pub is_match : Text → Incident → Bool
unfolding is_open
is_match fingerprint i = text_eq i.fingerprint fingerprint && is_open i.state

unfoldable pub find_match : Text → Dict Incident → Option Incident
unfolding is_match
find_match fingerprint [] = none
find_match fingerprint ((k, i) ∷ active) =
    if is_match fingerprint i then some i else find_match fingerprint active

unfoldable pub get_by_fingerprint : Text → IncidentStore → Option Incident
get_by_fingerprint fingerprint store = find_match fingerprint store.active

-- `while len(self._history) > self._max_history: self._history.pop(0)`
unfoldable pub evict_oldest : ℕ → List Incident → List Incident
evict_oldest max_history [] = []
evict_oldest max_history (i ∷ is) =
    let rest = evict_oldest max_history is in
    if ltb max_history (length (i ∷ is)) then rest else i ∷ is

unfoldable pub add_to_history : Incident → IncidentStore → IncidentStore
unfolding evict_oldest
add_to_history i store = record store {
  history = evict_oldest store.max_history (store.history ++ i ∷ []);
}

unfoldable pub close_found : ℕ → Text → Text → Option Incident → IncidentStore → IncidentStore
close_found now id resolution none store = store
close_found now id resolution (some i) store =
    add_to_history (resolve_incident now resolution i)
      (record store { active = remove id store.active })

unfoldable pub close : ℕ → Text → Text → IncidentStore → IncidentStore
unfolding close_found
close now id resolution store = close_found now id resolution (lookup id store.active) store
