-- ===== src/Monitoring/Deduplication/Found.antt =====
-- What deduplication leaves under the anomaly's fingerprint.
use devops_agent.Prelude.{
  ℕ, ◌+◌, ◌≡◌, refl, sym, if_true, if_false, ◌∙◌, true, false, none, some, [], ◌∷◌, ◌++◌, ltb,
  if◌then◌else◌, arith, Bool-cases, inl, inr, max,
}
use devops_agent.Text.{Text, text_eq, text_eq_refl}
use devops_agent.Dict.{Dict, insert}
use devops_agent.Monitoring.Thresholds.{ThresholdConfig}
use devops_agent.Monitoring.Incidents.{
  Anomaly, fingerprint_of, Incident, create_incident_from_anomaly, update_incident_with_anomaly,
  IncidentStore, is_match, find_match, get_by_fingerprint, add, severity_order, escalate,
  add_timeline,
}
use devops_agent.Monitoring.Deduplication.{
  modify, make_room, update_existing, create, found_or_created, find_or_create_incident,
}
use devops_agent.Monitoring.Deduplication.Keyed.{WellKeyed}
use devops_agent.Monitoring.Deduplication.Unique.{
  find_match-none, open_count-zero, open_count-make_room, is_match-update, is_match-create,
}

find_match-insert :
    (k j : Text) (i : Incident) (d : Dict Incident)
    → is_match k i ≡ true
    → find_match k d ≡ none
    → find_match k (insert j i d) ≡ some i
unfolding find_match insert
find_match-insert k j i [] m h = ground arith
find_match-insert k j i ((l, w) ∷ d) m h = ground (arith, find_match-insert k j i d m)

find_match-modify :
    (k : Text) (f : Incident → Incident) (e : Incident) (d : Dict Incident)
    → ((i : Incident) → is_match k (f i) ≡ is_match k i)
    → WellKeyed d
    → find_match k d ≡ some e
    → find_match k (modify e.id f d) ≡ some (f e)
unfolding find_match modify
find_match-modify k f e [] same keyed h = cc
find_match-modify k f e ((l, w) ∷ d) same keyed h = elim (Bool-cases (is_match k w)) [
  | inl matched ↦
      let this : some w ≡ some e = sym (if_true _ _ matched) ∙ h in
      let is_e : w ≡ e = cc in
      let here : text_eq l e.id ≡ true = rw (keyed.0, is_e) (text_eq_refl e.id) in
      rw (here, same w, matched, is_e) refl
  | inr other ↦
      let later : find_match k d ≡ some e = sym (if_false _ _ other) ∙ h in
      let rest = find_match-modify k f e d same keyed.1 later in
      elim (Bool-cases (text_eq l e.id)) [
        | inl here ↦ rw (here, same w, other) rest
        | inr there ↦ rw (there, other) rest
      ]
]

-- A new incident is what the store then has under the anomaly's fingerprint, whatever was evicted
-- for it.
pub find_or_create_incident-new :
    (now : ℕ) (id : Text) (config : ThresholdConfig) (a : Anomaly) (s : IncidentStore)
    → get_by_fingerprint (fingerprint_of a) s ≡ none
    → ((find_or_create_incident now id config a s).0 ≡ true)
      × (get_by_fingerprint (fingerprint_of a) (find_or_create_incident now id config a s).1
          ≡ some (create_incident_from_anomaly now id a))
unfolding find_or_create_incident found_or_created get_by_fingerprint create add
find_or_create_incident-new now id config a s h =
    let k = fingerprint_of a in
    let new = create_incident_from_anomaly now id a in
    let room = open_count-make_room k now config s in
    let before = find_match-none k s.active h in
    let none_left : find_match k (make_room now config s).active ≡ none =
      open_count-zero k _ (omega (arith, room, before)) in
    rw h (
      refl,
      find_match-insert k new.id new (make_room now config s).active
          (is_match-create k now id a ∙ text_eq_refl k) none_left,
    )

-- An incident that the fingerprint has already is left alone within the cooldown of its last
-- update, and else updated in its place; it is still what the store has under the fingerprint.
pub find_or_create_incident-existing :
    (now : ℕ) (id : Text) (config : ThresholdConfig) (a : Anomaly) (e : Incident)
    (s : IncidentStore)
    → WellKeyed s.active
    → get_by_fingerprint (fingerprint_of a) s ≡ some e
    → ((find_or_create_incident now id config a s).0 ≡ false)
      × (get_by_fingerprint (fingerprint_of a) (find_or_create_incident now id config a s).1
          ≡ some (
              if ltb now (e.updated_at + config.cooldown_seconds)
              then e
              else update_incident_with_anomaly now a e))
unfolding find_or_create_incident found_or_created get_by_fingerprint update_existing
find_or_create_incident-existing now id config a e s keyed h =
    let updated =
      find_match-modify (fingerprint_of a) (update_incident_with_anomaly now a) e s.active
        (is_match-update (fingerprint_of a) now a) keyed h in
    rw h (
      refl,
      (elim (Bool-cases (ltb now (e.updated_at + config.cooldown_seconds))) [
        | inl early ↦ rw early h
        | inr late ↦ rw late updated
      ]),
    )

-- An update makes the severity the worse of the incident's and the anomaly's, and adds the
-- anomaly's evidence and identifier at the end of the incident's.
pub update_incident_with_anomaly-worst :
    (now : ℕ) (a : Anomaly) (i : Incident)
    → (severity_order (update_incident_with_anomaly now a i).severity
        ≡ max (severity_order i.severity) (severity_order a.severity))
      × ((update_incident_with_anomaly now a i).evidence ≡ i.evidence ++ a.evidence)
      × ((update_incident_with_anomaly now a i).anomaly_ids ≡ i.anomaly_ids ++ a.id ∷ [])
unfolding update_incident_with_anomaly escalate add_timeline
update_incident_with_anomaly-worst now a i =
    elim (Bool-cases (ltb (severity_order i.severity) (severity_order a.severity))) [
      | inl worse ↦ rw worse (ground arith)
      | inr other ↦ rw other (ground arith)
    ]
