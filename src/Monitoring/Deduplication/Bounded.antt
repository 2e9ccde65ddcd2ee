-- ===== src/Monitoring/Deduplication/Bounded.antt =====
-- How many incidents the store keeps.
use devops_agent.Prelude.{
  ℕ, suc, ◌≤◌, ◌<◌, ◌≡◌, ◌≢◌, refl, ap, max, min, Bool, true, false, ◌||◌, Option, none, some, List,
  [], ◌∷◌, ◌++◌, map, ltb, arith, Bool-cases, inl, inr, length, All, All-map, All-keep_if, keep_if,
  or-true_right,
}
use devops_agent.Text.{Text, text_eq, text_eq_refl}
use devops_agent.Dict.{Dict, lookup, insert, remove}
use devops_agent.Monitoring.Thresholds.{ThresholdConfig}
use devops_agent.Monitoring.Incidents.{
  Anomaly, fingerprint_of, Incident, create_incident_from_anomaly, update_incident_with_anomaly,
  IncidentStore, get_by_fingerprint, close, add, close_found, active_count, add_to_history,
  evict_oldest,
}
use devops_agent.Monitoring.Deduplication.{
  modify, evict, make_room, update_existing, create, found_or_created, find_or_create_incident,
  to_evict, pick, min_created, is_info,
}
use devops_agent.Monitoring.Deduplication.Keyed.{WellKeyed}

abbrev has_key : Text → Dict Incident → Bool
has_key k [] = false
has_key k ((j, i) ∷ d) = text_eq j k || has_key k d

values : Dict Incident → List Incident
values d = map (λ entry. entry.1) d

length-remove : (k : Text) (d : Dict Incident) → length (remove k d) ≤ length d
unfolding remove
length-remove k [] = omega arith
length-remove k ((j, i) ∷ d) = ground (arith, length-remove k d)

length-remove_present :
    (k : Text) (d : Dict Incident) → has_key k d ≡ true → length (remove k d) < length d
unfolding remove
length-remove_present k [] h = cc
length-remove_present k ((j, i) ∷ d) h =
    let rest = length-remove k d in ground (arith, length-remove_present k d)

length-insert :
    (k : Text) (i : Incident) (d : Dict Incident) → length (insert k i d) ≤ suc (length d)
unfolding insert
length-insert k i [] = omega arith
length-insert k i ((j, w) ∷ d) = ground (arith, length-insert k i d)

length-modify :
    (k : Text) (f : Incident → Incident) (d : Dict Incident) → length (modify k f d) ≡ length d
unfolding modify
length-modify k f [] = refl
length-modify k f ((j, w) ∷ d) = omega (arith, length-modify k f d)

lookup-has_key : (k : Text) (d : Dict Incident) → has_key k d ≡ true → lookup k d ≢ none
unfolding lookup
lookup-has_key k [] h = cc
lookup-has_key k ((j, w) ∷ d) h = ground (arith, lookup-has_key k d)

HasKey : Dict Incident → Incident → Type 0
HasKey d i = has_key i.id d ≡ true

values-HasKey : (d : Dict Incident) → WellKeyed d → All (HasKey d) (values d)
unfolding values HasKey
values-HasKey [] h = tt
values-HasKey ((j, i) ∷ d) h = (
  rw (h.0, text_eq_refl i.id) refl,
  All-map (HasKey d) (HasKey ((j, i) ∷ d)) (values d)
      (λ w there. or-true_right (text_eq j w.id) (has_key w.id d) there) (values-HasKey d h.1),
)

min_created-of :
    (P : Incident → Type 0) (best : Incident) (is : List Incident)
    → P best
    → All P is
    → P (min_created best is)
unfolding min_created
min_created-of P best [] hb h = hb
min_created-of P best (i ∷ is) hb h = elim (Bool-cases (ltb i.created_at best.created_at)) [
  | inl older ↦ rw older (min_created-of P i is h.0 h.1)
  | inr other ↦ rw other (min_created-of P best is hb h.1)
]

pick-of :
    (P : Incident → Type 0) (is : List Incident) (o : Incident) → All P is → pick is ≡ some o → P o
unfolding pick
pick-of P [] o h e = cc
pick-of P (i ∷ is) o h e =
    let chosen : min_created i is ≡ o = cc in rw (← chosen) (min_created-of P i is h.0 h.1)

to_evict-of :
    (P : Incident → Type 0) (is : List Incident) (o : Incident)
    → All P is
    → to_evict is ≡ some o
    → P o
unfolding to_evict
to_evict-of P is o h e = by_info (keep_if is_info is) (All-keep_if P is_info is h) e
  where
    by_info :
        (infos : List Incident)
        → All P infos
        → elim infos [ [] ↦ pick is | (i ∷ js) ↦ pick (i ∷ js) ] ≡ some o
        → P o
    by_info [] hi e = pick-of P is o h e
    by_info (i ∷ js) hi e = pick-of P (i ∷ js) o hi e

to_evict-none : (is : List Incident) → to_evict is ≡ none → length is ≡ 0
unfolding to_evict pick
to_evict-none [] e = refl
to_evict-none (i ∷ is) e = by_info (keep_if is_info (i ∷ is)) e
  where
    by_info :
        (infos : List Incident)
        → elim infos [ [] ↦ pick (i ∷ is) | (j ∷ js) ↦ pick (j ∷ js) ] ≡ none
        → suc (length is) ≡ 0
    by_info [] e = cc
    by_info (j ∷ js) e = cc

length-values : (d : Dict Incident) → length (values d) ≡ length d
unfolding values
length-values [] = refl
length-values ((j, i) ∷ d) = omega (arith, length-values d)

length-close_found :
    (now : ℕ) (id resolution : Text) (o : Option Incident) (s : IncidentStore)
    → lookup id s.active ≡ o
    → has_key id s.active ≡ true
    → length (close_found now id resolution o s).active < length s.active
unfolding close_found add_to_history
length-close_found now id resolution none s e h = elim (lookup-has_key id s.active h e) [ ]
length-close_found now id resolution (some i) s e h = length-remove_present id s.active h

-- where something is active, an eviction makes room
length-evict :
    (now : ℕ) (o : Option Incident) (s : IncidentStore)
    → WellKeyed s.active
    → to_evict (values s.active) ≡ o
    → length (evict now o s).active < max 1 (length s.active)
unfolding evict close HasKey
length-evict now none s keyed e =
    let empty = to_evict-none (values s.active) e in
    let same = length-values s.active in omega arith
length-evict now (some i) s keyed e =
    let there =
      to_evict-of (HasKey s.active) (values s.active) i (values-HasKey s.active keyed) e in
    let less : length (evict now (some i) s).active < length s.active =
      length-close_found now i.id _ (lookup i.id s.active) s refl there in
    omega arith

length-make_room :
    (now : ℕ) (config : ThresholdConfig) (s : IncidentStore)
    → WellKeyed s.active
    → active_count s ≤ max 1 config.max_concurrent_incidents
    → active_count (make_room now config s) < max 1 config.max_concurrent_incidents
unfolding make_room values
length-make_room now config s keyed h =
    let evicted = length-evict now (to_evict (map (λ entry. entry.1) s.active)) s keyed refl in
    ground arith

active_count-found :
    (now : ℕ) (id : Text) (config : ThresholdConfig) (a : Anomaly) (o : Option Incident)
    (s : IncidentStore)
    → WellKeyed s.active
    → active_count s ≤ max 1 config.max_concurrent_incidents
    → active_count (found_or_created now id config a o s).1 ≤ max 1 config.max_concurrent_incidents
unfolding found_or_created create add update_existing
active_count-found now id config a none s keyed h =
    let room = length-make_room now config s keyed h in
    let new = create_incident_from_anomaly now id a in
    let added = length-insert new.id new (make_room now config s).active in omega arith
active_count-found now id config a (some e) s keyed h =
    let kept = length-modify e.id (update_incident_with_anomaly now a) s.active in ground arith

-- The store never holds more active incidents than its limit, or one where the limit is zero: one
-- that is full evicts before it takes a new incident.
pub find_or_create_incident-bounded :
    (now : ℕ) (id : Text) (config : ThresholdConfig) (a : Anomaly) (s : IncidentStore)
    → WellKeyed s.active
    → active_count s ≤ max 1 config.max_concurrent_incidents
    → active_count (find_or_create_incident now id config a s).1
      ≤ max 1 config.max_concurrent_incidents
unfolding find_or_create_incident
find_or_create_incident-bounded now id config a s keyed h =
    active_count-found now id config a (get_by_fingerprint (fingerprint_of a) s) s keyed h

-- What eviction leaves of the history is its newest part, as long as the limit allows.
pub evict_oldest-newest :
    (n : ℕ) (is : List Incident)
    → (length (evict_oldest n is) ≡ min n (length is))
      × ((dropped : List Incident) × (dropped ++ evict_oldest n is ≡ is))
unfolding evict_oldest
evict_oldest-newest n [] = (omega arith, ([], refl))
evict_oldest-newest n (i ∷ is) =
    let (size, (dropped, e)) = evict_oldest-newest n is in
    elim (Bool-cases (ltb n (length (i ∷ is)))) [
      | inl over ↦ rw over (ground arith, (i ∷ dropped, ap (λ js. i ∷ js) e))
      | inr fits ↦ rw fits (ground arith, ([], refl))
    ]
