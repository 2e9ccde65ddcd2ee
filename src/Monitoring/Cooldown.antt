-- ===== src/Monitoring/Cooldown.antt =====
-- Cooldown and suppression of alerts (app/monitoring/cooldown.py). The clock is an argument: `now`,
-- in seconds. Differences of times are compared with the sum on the other side.
pub mod Spacing
use devops_agent.Prelude.{
  ℕ, ◌+◌, Bool, true, false, ◌&&◌, Option, none, some, List, [], ◌∷◌, leb, ltb, if◌then◌else◌,
}
use devops_agent.Text.{Text, text_eq}
use devops_agent.Dict.{Dict, lookup, insert, remove}
use devops_agent.Monitoring.Thresholds.{ThresholdConfig}

pub record CooldownTracker : Type 0 where
  pub config : ThresholdConfig
  pub last_fired : Dict ℕ
  pub fire_count : Dict ℕ
  pub last_recovery : Dict ℕ

-- `d.get(key, 0)`
abbrev pub or_zero : Option ℕ → ℕ
or_zero none = 0
or_zero (some n) = n

unfoldable pub get_fire_count : Text → CooldownTracker → ℕ
get_fire_count fingerprint t = or_zero (lookup fingerprint t.fire_count)

unfoldable pub can_fire : ℕ → Text → CooldownTracker → Bool
can_fire now fingerprint t =
    let last = or_zero (lookup fingerprint t.last_fired) in
    if ltb now (last + t.config.cooldown_seconds)
    then false
    else (if leb 3 (or_zero (lookup fingerprint t.fire_count))
          && ltb now (last + t.config.escalation_cooldown_seconds)
        then false
        else true)

unfoldable pub record_fire : ℕ → Text → CooldownTracker → CooldownTracker
record_fire now fingerprint t = record t {
  last_fired = insert fingerprint now t.last_fired;
  fire_count = insert fingerprint (or_zero (lookup fingerprint t.fire_count) + 1) t.fire_count;
}

unfoldable pub record_recovery : ℕ → Text → CooldownTracker → CooldownTracker
record_recovery now fingerprint t = record t {
  last_recovery = insert fingerprint now t.last_recovery;
  fire_count = remove fingerprint t.fire_count;
}

unfoldable pub is_recovering : ℕ → ℕ → Text → CooldownTracker → Bool
is_recovering now within_seconds fingerprint t =
    ltb now (or_zero (lookup fingerprint t.last_recovery) + within_seconds)

unfoldable pub reset : Text → CooldownTracker → CooldownTracker
reset fingerprint t = record t {
  last_fired = remove fingerprint t.last_fired;
  fire_count = remove fingerprint t.fire_count;
  last_recovery = remove fingerprint t.last_recovery;
}

-- What the engine does with an anomaly: it fires if it can at `now`, and records that at `later`. The
-- result is whether it fired.
unfoldable pub try_fire : ℕ → ℕ → Text → CooldownTracker → Bool × CooldownTracker
try_fire now later fingerprint t =
    if can_fire now fingerprint t then (true, record_fire later fingerprint t) else (false, t)

-- An anomaly of a fingerprint: when the engine asks the cooldown, and how much later it records the
-- alert.
pub record Anomalous : Type 0 where
  pub now : ℕ
  pub delay : ℕ
  pub fingerprint : Text

-- one anomaly after the other; the recorded times of the alerts of `watched`, in order
unfoldable pub fire_times : Text → List Anomalous → CooldownTracker → List ℕ
fire_times watched [] t = []
fire_times watched (a ∷ arrivals) t =
    let (fired, t') = try_fire a.now (a.now + a.delay) a.fingerprint t in
    let rest = fire_times watched arrivals t' in
    if fired && text_eq a.fingerprint watched then (a.now + a.delay) ∷ rest else rest
