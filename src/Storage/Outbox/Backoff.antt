-- ===== src/Storage/Outbox/Backoff.antt =====
-- How long a failed row waits.
use qsl.Prelude.{ℕ, zero, suc, ◌*◌, ◌^◌, ◌≤◌, ◌<◌, arith}
use qsl.Storage.Outbox.{backoff_seconds}

-- The wait before the retry after failure n + 1, n below 4, is 30 * 4^n seconds within a fifth,
-- whatever the random byte.
pub backoff_bounds :
    (n random : ℕ)
    → n < 4
    → (24 * 4 ^ n ≤ backoff_seconds (suc n) random) × (backoff_seconds (suc n) random ≤ 36 * 4 ^ n)
unfolding backoff_seconds
backoff_bounds zero r h = ground arith
backoff_bounds (suc zero) r h = ground arith
backoff_bounds (suc (suc zero)) r h = ground arith
backoff_bounds (suc (suc (suc zero))) r h = ground arith
backoff_bounds (suc (suc (suc (suc n)))) r h = absurd (omega arith)
