-- ===== src/Jobs/Delays.antt =====
-- The delays between attempts: `dispatchBackoff` of internal/remediation/dispatch.go and `RetryDelay`
-- of internal/workers/runner.go.
use argus.Base.{ℕ, zero, suc, ◌+◌, ◌*◌, ◌^◌, ◌≤◌, ◌≡◌, refl, arith, ltb, if◌then◌else◌}
use argus.Jobs.Outbox.{second, dispatch_backoff}
use argus.Jobs.Runner.{retry_delay}

abbrev pub least : ℕ → ℕ → ℕ
least a b = if ltb a b then a else b

pow_positive : (n : ℕ) → 1 ≤ 2 ^ n
pow_positive zero = omega arith
pow_positive (suc n) = omega (arith, pow_positive n)

backoff-doubles : (n : ℕ) → dispatch_backoff (n + 1) ≡ least (2 ^ n) 30 * second
unfolding dispatch_backoff
backoff-doubles zero = refl
backoff-doubles (suc zero) = refl
backoff-doubles (suc (suc zero)) = refl
backoff-doubles (suc (suc (suc zero))) = refl
backoff-doubles (suc (suc (suc (suc zero)))) = refl
backoff-doubles (suc (suc (suc (suc (suc n))))) = ground (arith, pow_positive n)

retry-doubles : (n : ℕ) → retry_delay (n + 1) ≡ least (2 ^ n) 60 * second
unfolding retry_delay
retry-doubles zero = refl
retry-doubles (suc zero) = refl
retry-doubles (suc (suc zero)) = refl
retry-doubles (suc (suc (suc zero))) = refl
retry-doubles (suc (suc (suc (suc zero)))) = refl
retry-doubles (suc (suc (suc (suc (suc zero))))) = refl
retry-doubles (suc (suc (suc (suc (suc (suc zero)))))) = refl
retry-doubles (suc (suc (suc (suc (suc (suc (suc n))))))) = ground (arith, pow_positive n)

-- After the (n + 1)-st attempt the outbox waits for 2^n seconds, but 30 at most, and a message waits
-- for 2^n seconds, but 60 at most.
pub delays-double :
    (n : ℕ)
    → (dispatch_backoff (n + 1) ≡ least (2 ^ n) 30 * second)
      × (retry_delay (n + 1) ≡ least (2 ^ n) 60 * second)
delays-double n = (backoff-doubles n, retry-doubles n)
