-- ===== src/Router/Availability.antt =====
-- When a provider may be called again.
use devops_agent.Prelude.{ℕ, zero, suc, ◌+◌, ◌*◌, ◌^◌, ◌-◌, ◌≤◌, min, ◌≡◌, ◌↔◌, true, false, arith}
use devops_agent.Text.{Text}
use devops_agent.Router.{
  ProviderState, is_cooled_down, is_failed, is_usable, backoff, record_failure,
}

-- Behind a failure that may be retried a provider is usable exactly when 30 seconds, doubled for
-- each failure in a row before it and at most 300, are over.
pub is_usable-record_failure :
    (failed_at now : ℕ) (error_msg : Text) (s : ProviderState)
    → (is_usable now (record_failure failed_at error_msg true s) ≡ true)
      ↔ (failed_at + min (30 * 2 ^ s.failures) 300 ≤ now)
unfolding is_usable record_failure backoff is_cooled_down is_failed
is_usable-record_failure failed_at now error_msg s = ground arith

-- After a failure that may not be retried a provider is usable at no time.
pub is_usable-failed_for_good :
    (failed_at now : ℕ) (error_msg : Text) (s : ProviderState)
    → is_usable now (record_failure failed_at error_msg false s) ≡ false
unfolding is_usable record_failure is_failed
is_usable-failed_for_good failed_at now error_msg s = ground arith

one_le_pow2 : (n : ℕ) → 1 ≤ 2 ^ n
one_le_pow2 zero = omega arith
one_le_pow2 (suc n) = omega (arith, one_le_pow2 n)

-- Every cooldown is between 30 and 300 seconds, and one more failure never shortens it.
pub backoff-range : (n : ℕ) → (30 ≤ backoff n) × (backoff n ≤ 300) × (backoff n ≤ backoff (n + 1))
unfolding backoff
backoff-range zero = (ground arith, ground arith, ground arith)
backoff-range (suc n) =
    let positive = one_le_pow2 n in
    let here : suc n - 1 ≡ n = omega arith in
    let next : suc n + 1 - 1 ≡ suc n = omega arith in
    rw (here, next) (omega arith, omega arith, omega arith)
