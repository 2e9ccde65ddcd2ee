-- ===== src/Monitoring/Deduplication/Unique.antt =====
-- How many open incidents a fingerprint has.
use devops_agent.Prelude.{
  ℕ, suc, ◌+◌, ◌≤◌, ◌≡◌, refl, Option, none, some, [], ◌∷◌, map, ltb, if◌then◌else◌, arith,
  Bool-cases, inl, inr,
}
use devops_agent.Text.{Text, text_eq, text_eq→eq}
use devops_agent.Dict.{Dict, lookup, insert, remove}
use devops_agent.Monitoring.Thresholds.{ThresholdConfig}
use devops_agent.Monitoring.Incidents.{
  Anomaly, fingerprint_of, Incident, create_incident_from_anomaly, update_incident_with_anomaly,
  escalate, add_timeline, IncidentStore, is_match, find_match, get_by_fingerprint, close, add,
  add_to_history, close_found, severity_order, is_open,
}
use devops_agent.Monitoring.Deduplication.{
  modify, evict, make_room, update_existing, create, found_or_created, find_or_create_incident,
  to_evict,
}

abbrev pub open_count : Text → Dict Incident → ℕ
open_count k [] = 0
open_count k ((j, i) ∷ d) = let rest = open_count k d in if is_match k i then suc rest else rest

pub find_match-none : (k : Text) (d : Dict Incident) → find_match k d ≡ none → open_count k d ≡ 0
unfolding find_match
find_match-none k [] h = refl
find_match-none k ((j, i) ∷ d) h = ground (arith, find_match-none k d)

pub open_count-zero : (k : Text) (d : Dict Incident) → open_count k d ≡ 0 → find_match k d ≡ none
unfolding find_match
open_count-zero k [] h = refl
open_count-zero k ((j, i) ∷ d) h = ground (arith, open_count-zero k d)

pub open_count-remove :
    (k j : Text) (d : Dict Incident) → open_count k (remove j d) ≤ open_count k d
unfolding remove
open_count-remove k j [] = omega arith
open_count-remove k j ((l, i) ∷ d) = ground (arith, open_count-remove k j d)

open_count-insert :
    (k j : Text) (i : Incident) (d : Dict Incident)
    → open_count k (insert j i d) ≤ (if is_match k i then 1 else 0) + open_count k d
unfolding insert
open_count-insert k j i [] = ground arith
open_count-insert k j i ((l, w) ∷ d) = ground (arith, open_count-insert k j i d)

open_count-modify :
    (k j : Text) (f : Incident → Incident) (d : Dict Incident)
    → ((i : Incident) → is_match k (f i) ≡ is_match k i)
    → open_count k (modify j f d) ≡ open_count k d
unfolding modify
open_count-modify k j f [] same = refl
open_count-modify k j f ((l, i) ∷ d) same = elim (Bool-cases (text_eq l j)) [
  | inl here ↦ rw (here, same i, open_count-modify k j f d same)
  | inr there ↦ rw (there, open_count-modify k j f d same)
]

-- an update changes neither the fingerprint nor the state
pub is_match-update :
    (k : Text) (now : ℕ) (a : Anomaly) (i : Incident)
    → is_match k (update_incident_with_anomaly now a i) ≡ is_match k i
unfolding is_match update_incident_with_anomaly escalate add_timeline
is_match-update k now a i =
    elim (Bool-cases (ltb (severity_order i.severity) (severity_order a.severity))) [
      | inl worse ↦ rw worse
      | inr other ↦ rw other
    ]

open_count-close_found :
    (k : Text) (now : ℕ) (id resolution : Text) (o : Option Incident) (s : IncidentStore)
    → open_count k (close_found now id resolution o s).active ≤ open_count k s.active
unfolding close_found add_to_history
open_count-close_found k now id resolution none s = omega arith
open_count-close_found k now id resolution (some i) s = open_count-remove k id s.active

open_count-evict :
    (k : Text) (now : ℕ) (o : Option Incident) (s : IncidentStore)
    → open_count k (evict now o s).active ≤ open_count k s.active
unfolding evict close
open_count-evict k now none s = omega arith
open_count-evict k now (some i) s = open_count-close_found k now i.id _ (lookup i.id s.active) s

pub open_count-make_room :
    (k : Text) (now : ℕ) (config : ThresholdConfig) (s : IncidentStore)
    → open_count k (make_room now config s).active ≤ open_count k s.active
unfolding make_room
open_count-make_room k now config s =
    let evicted = open_count-evict k now (to_evict (map (λ entry. entry.1) s.active)) s in
    ground (arith, evicted)

-- a new incident is open under its anomaly's fingerprint
pub is_match-create :
    (k : Text) (now : ℕ) (id : Text) (a : Anomaly)
    → is_match k (create_incident_from_anomaly now id a) ≡ text_eq (fingerprint_of a) k
unfolding is_match create_incident_from_anomaly add_timeline is_open
is_match-create k now id a = ground arith

open_count-create :
    (k : Text) (now : ℕ) (id : Text) (config : ThresholdConfig) (a : Anomaly) (s : IncidentStore)
    → find_match (fingerprint_of a) s.active ≡ none
    → open_count k s.active ≤ 1
    → open_count k (create now id config a s).active ≤ 1
unfolding create add
open_count-create k now id config a s fresh h =
    let new = create_incident_from_anomaly now id a in
    let inserted = open_count-insert k new.id new (make_room now config s).active in
    let room = open_count-make_room k now config s in
    let matched = is_match-create k now id a in
    elim (Bool-cases (text_eq (fingerprint_of a) k)) [
      | inl same ↦
          let none_yet : open_count k s.active ≡ 0 =
            rw (← text_eq→eq (fingerprint_of a) k same) (find_match-none _ s.active fresh) in
          ground arith
      | inr other ↦ ground arith
    ]

open_count-update_existing :
    (k : Text) (now : ℕ) (config : ThresholdConfig) (a : Anomaly) (e : Incident) (s : IncidentStore)
    → open_count k (update_existing now config a e s).active ≡ open_count k s.active
unfolding update_existing
open_count-update_existing k now config a e s =
    let updated =
      open_count-modify k e.id (update_incident_with_anomaly now a) s.active
        (is_match-update k now a) in
    ground (arith, updated)

open_count-found :
    (k : Text) (now : ℕ) (id : Text) (config : ThresholdConfig) (a : Anomaly) (s : IncidentStore)
    (o : Option Incident)
    → find_match (fingerprint_of a) s.active ≡ o
    → open_count k s.active ≤ 1
    → open_count k (found_or_created now id config a o s).1.active ≤ 1
unfolding found_or_created
open_count-found k now id config a s none e h = open_count-create k now id config a s e h
open_count-found k now id config a s (some i) e h =
    rw (open_count-update_existing k now config a i s) h

-- No anomaly gives a fingerprint a second open incident, its own or another's: where a fingerprint
-- has at most one, it has at most one afterwards.
pub find_or_create_incident_unique :
    (k : Text) (now : ℕ) (id : Text) (config : ThresholdConfig) (a : Anomaly) (s : IncidentStore)
    → open_count k s.active ≤ 1
    → open_count k (find_or_create_incident now id config a s).1.active ≤ 1
unfolding find_or_create_incident get_by_fingerprint
find_or_create_incident_unique k now id config a s h = open_count-found k now id config a s _ refl h
