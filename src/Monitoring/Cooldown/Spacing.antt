-- ===== src/Monitoring/Cooldown/Spacing.antt =====
-- How far apart the alerts of one fingerprint are.
use devops_agent.Prelude.{
  ℕ, ◌+◌, ◌≤◌, ◌≡◌, true, false, ◌↔◌, List, [], ◌∷◌, arith, Bool-cases, inl, inr,
}
use devops_agent.Text.{Text, text_eq, text_eq→eq}
use devops_agent.Dict.{lookup, insert, lookup-insert_self, lookup-insert_other, lookup-remove_self}
use devops_agent.Monitoring.Cooldown.{
  Anomalous, CooldownTracker, or_zero, get_fire_count, can_fire, record_fire, record_recovery,
  try_fire, fire_times,
}

-- Behind an alert at time `fired`, the fingerprint can fire again exactly when its cooldown is over
-- and, from the third alert in a row on, the escalation cooldown too.
pub can_fire-record_fire :
    (fired now : ℕ) (k : Text) (t : CooldownTracker)
    → (can_fire now k (record_fire fired k t) ≡ true) ↔ (
        (fired + t.config.cooldown_seconds ≤ now)
        × (2 ≤ get_fire_count k t → fired + t.config.escalation_cooldown_seconds ≤ now))
unfolding can_fire record_fire get_fire_count
can_fire-record_fire fired now k t =
    rw
      (
        lookup-insert_self k fired t.last_fired,
        lookup-insert_self k (or_zero (lookup k t.fire_count) + 1) t.fire_count,
      )
      (ground arith)

-- a recovery in between takes the escalation cooldown away, and not the plain one
pub can_fire-record_recovery :
    (fired recovered now : ℕ) (k : Text) (t : CooldownTracker)
    → (can_fire now k (record_recovery recovered k (record_fire fired k t)) ≡ true)
      ↔ (fired + t.config.cooldown_seconds ≤ now)
unfolding can_fire record_fire record_recovery
can_fire-record_recovery fired recovered now k t =
    rw
      (
        lookup-insert_self k fired t.last_fired,
        lookup-remove_self k (insert k (or_zero (lookup k t.fire_count) + 1) t.fire_count),
      )
      (ground arith)

-- each time of the list is at least the bound, and the later ones are `gap` apart
abbrev pub SpacedFrom : ℕ → ℕ → List ℕ → Type 0
SpacedFrom gap bound [] = Unit
SpacedFrom gap bound (x ∷ xs) = (bound ≤ x) × SpacedFrom gap (x + gap) xs

can_fire-bound :
    (now : ℕ) (k watched : Text) (t : CooldownTracker) (bound : ℕ)
    → k ≡ watched
    → can_fire now k t ≡ true
    → bound ≤ or_zero (lookup watched t.last_fired) + t.config.cooldown_seconds
    → bound ≤ now
unfolding can_fire
can_fire-bound now k watched t bound e due h =
    let h' : bound ≤ or_zero (lookup k t.last_fired) + t.config.cooldown_seconds = rw e h in
    ground arith

fired_bound :
    (now : ℕ) (k watched : Text) (t : CooldownTracker)
    → k ≡ watched
    → now + t.config.cooldown_seconds
      ≤ or_zero (lookup watched (record_fire now k t).last_fired) + t.config.cooldown_seconds
unfolding record_fire
fired_bound now k watched t e = rw (← e, lookup-insert_self k now t.last_fired) (omega arith)

other_bound :
    (now : ℕ) (k watched : Text) (t : CooldownTracker) (bound : ℕ)
    → text_eq k watched ≡ false
    → bound ≤ or_zero (lookup watched t.last_fired) + t.config.cooldown_seconds
    → bound ≤ or_zero (lookup watched (record_fire now k t).last_fired) + t.config.cooldown_seconds
unfolding record_fire
other_bound now k watched t bound ne h = rw (lookup-insert_other k watched now t.last_fired ne) h

fire_times-SpacedFrom :
    (watched : Text) (arrivals : List Anomalous) (t : CooldownTracker) (bound : ℕ)
    → bound ≤ or_zero (lookup watched t.last_fired) + t.config.cooldown_seconds
    → SpacedFrom t.config.cooldown_seconds bound (fire_times watched arrivals t)
unfolding fire_times try_fire record_fire
fire_times-SpacedFrom watched [] t bound h = tt
fire_times-SpacedFrom watched (a ∷ arrivals) t bound h =
    let later = a.now + a.delay in
    elim (Bool-cases (can_fire a.now a.fingerprint t)) [
      | inr early ↦ rw early (fire_times-SpacedFrom watched arrivals t bound h)
      | inl due ↦ elim (Bool-cases (text_eq a.fingerprint watched)) [
        | inl same ↦
            let asked =
              can_fire-bound a.now a.fingerprint watched t bound
                (text_eq→eq a.fingerprint watched same) due h in
            rw (due, same)
              (
                omega (arith, asked),
                fire_times-SpacedFrom watched arrivals (record_fire later a.fingerprint t)
                    (later + t.config.cooldown_seconds)
                    (fired_bound later a.fingerprint watched t
                      (text_eq→eq a.fingerprint watched same)),
              )
        | inr other ↦
            rw (due, other)
              (fire_times-SpacedFrom watched arrivals (record_fire later a.fingerprint t) bound
                (other_bound later a.fingerprint watched t bound other h))
      ]
    ]

-- Whatever arrives and in whatever order, two alerts of one fingerprint are recorded at least its
-- cooldown apart, other fingerprints' alerts between them included, and however long the engine takes
-- from its question to the record.
pub fire_times-spaced :
    (watched : Text) (arrivals : List Anomalous) (t : CooldownTracker)
    → SpacedFrom t.config.cooldown_seconds
        (or_zero (lookup watched t.last_fired) + t.config.cooldown_seconds)
        (fire_times watched arrivals t)
fire_times-spaced watched arrivals t = fire_times-SpacedFrom watched arrivals t _ (omega arith)
