-- ===== src/Monitoring/Deduplication/Keyed.antt =====
-- The incidents of the store stand at their own identifiers, and every operation keeps that.
use devops_agent.Prelude.{
  ℕ, ◌+◌, ◌≡◌, refl, Option, none, some, [], ◌∷◌, map, leb, ltb, Bool-cases, inl, inr,
}
use devops_agent.Text.{Text, text_eq, text_eq→eq}
use devops_agent.Dict.{Dict, lookup, insert, remove}
use devops_agent.Monitoring.Thresholds.{ThresholdConfig}
use devops_agent.Monitoring.Incidents.{
  Anomaly, fingerprint_of, Incident, create_incident_from_anomaly, update_incident_with_anomaly,
  escalate, add_timeline, IncidentStore, get_by_fingerprint, close, add, close_found,
  severity_order, add_to_history, active_count,
}
use devops_agent.Monitoring.Deduplication.{
  modify, evict, make_room, update_existing, create, found_or_created, find_or_create_incident,
  to_evict,
}

-- each incident stands at the key that is its identifier
abbrev pub WellKeyed : Dict Incident → Type 0
WellKeyed [] = Unit
WellKeyed ((k, i) ∷ d) = (k ≡ i.id) × WellKeyed d

insert-WellKeyed : (i : Incident) (d : Dict Incident) → WellKeyed d → WellKeyed (insert i.id i d)
unfolding insert
insert-WellKeyed i [] h = (refl, tt)
insert-WellKeyed i ((j, w) ∷ d) h = elim (Bool-cases (text_eq j i.id)) [
  | inl same ↦ rw same (text_eq→eq j i.id same, h.1)
  | inr other ↦ rw other (h.0, insert-WellKeyed i d h.1)
]

remove-WellKeyed : (k : Text) (d : Dict Incident) → WellKeyed d → WellKeyed (remove k d)
unfolding remove
remove-WellKeyed k [] h = tt
remove-WellKeyed k ((j, w) ∷ d) h = elim (Bool-cases (text_eq j k)) [
  | inl same ↦ rw same (remove-WellKeyed k d h.1)
  | inr other ↦ rw other (h.0, remove-WellKeyed k d h.1)
]

modify-WellKeyed :
    (k : Text) (f : Incident → Incident) (d : Dict Incident)
    → ((i : Incident) → (f i).id ≡ i.id)
    → WellKeyed d
    → WellKeyed (modify k f d)
unfolding modify
modify-WellKeyed k f [] same h = tt
modify-WellKeyed k f ((j, w) ∷ d) same h = elim (Bool-cases (text_eq j k)) [
  | inl here ↦ rw (here, same w) (h.0, modify-WellKeyed k f d same h.1)
  | inr there ↦ rw there (h.0, modify-WellKeyed k f d same h.1)
]

update-id :
    (now : ℕ) (a : Anomaly) (i : Incident) → (update_incident_with_anomaly now a i).id ≡ i.id
unfolding update_incident_with_anomaly escalate add_timeline
update-id now a i =
    elim (Bool-cases (ltb (severity_order i.severity) (severity_order a.severity))) [
      | inl worse ↦ rw worse
      | inr other ↦ rw other
    ]

close_found-WellKeyed :
    (now : ℕ) (id resolution : Text) (o : Option Incident) (s : IncidentStore)
    → WellKeyed s.active
    → WellKeyed (close_found now id resolution o s).active
unfolding close_found add_to_history
close_found-WellKeyed now id resolution none s h = h
close_found-WellKeyed now id resolution (some i) s h = remove-WellKeyed id s.active h

evict-WellKeyed :
    (now : ℕ) (o : Option Incident) (s : IncidentStore)
    → WellKeyed s.active
    → WellKeyed (evict now o s).active
unfolding evict close
evict-WellKeyed now none s h = h
evict-WellKeyed now (some i) s h = close_found-WellKeyed now i.id _ (lookup i.id s.active) s h

make_room-WellKeyed :
    (now : ℕ) (config : ThresholdConfig) (s : IncidentStore)
    → WellKeyed s.active
    → WellKeyed (make_room now config s).active
unfolding make_room
make_room-WellKeyed now config s h =
    elim (Bool-cases (leb config.max_concurrent_incidents (active_count s))) [
      | inl full ↦ rw full (evict-WellKeyed now (to_evict (map (λ entry. entry.1) s.active)) s h)
      | inr room ↦ rw room h
    ]

found-WellKeyed :
    (now : ℕ) (id : Text) (config : ThresholdConfig) (a : Anomaly) (o : Option Incident)
    (s : IncidentStore)
    → WellKeyed s.active
    → WellKeyed (found_or_created now id config a o s).1.active
unfolding found_or_created create add update_existing
found-WellKeyed now id config a none s h =
    insert-WellKeyed (create_incident_from_anomaly now id a) (make_room now config s).active
      (make_room-WellKeyed now config s h)
found-WellKeyed now id config a (some e) s h =
    elim (Bool-cases (ltb now (e.updated_at + config.cooldown_seconds))) [
      | inl early ↦ rw early h
      | inr late ↦
          rw late (
            modify-WellKeyed e.id (update_incident_with_anomaly now a) s.active (update-id now a) h)
    ]

-- The store's keys stay the identifiers of their incidents.
pub find_or_create_incident-WellKeyed :
    (now : ℕ) (id : Text) (config : ThresholdConfig) (a : Anomaly) (s : IncidentStore)
    → WellKeyed s.active
    → WellKeyed (find_or_create_incident now id config a s).1.active
unfolding find_or_create_incident
find_or_create_incident-WellKeyed now id config a s h =
    found-WellKeyed now id config a (get_by_fingerprint (fingerprint_of a) s) s h
