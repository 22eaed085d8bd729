-- ===== src/Outbox/Policy/Backoff.antt =====
-- The backoff of app/domain/outbox.py and the one that the procedures compute.
use native.Mathlib.Nat.{pow-le-pow_right}
use kelin_server.Prelude.{ℕ, ◌^◌, ◌≤◌, ◌≡◌, max, ok, arith}
use kelin_server.Prelude.Int.{ℤ, pos, pos_part}
use kelin_server.Outbox.Policy.{
  at_least_one, retry_backoff_seconds, backoff_seconds_sql, max_retry_backoff_seconds,
}

-- Up to 30 attempts, retry_backoff_seconds and the expression of the procedures agree, and the procedures do not raise.
pub backoff_seconds_sql_lem :
    (attempts : ℕ)
    → attempts ≤ 30
    → backoff_seconds_sql attempts ≡ ok (retry_backoff_seconds (pos attempts))
unfolding backoff_seconds_sql retry_backoff_seconds max_retry_backoff_seconds
backoff_seconds_sql_lem attempts h =
    let fits : 2 ^ max attempts 1 ≤ 2 ^ 30 =
      pow-le-pow_right {n = 2} (omega arith) {i = max attempts 1} {j = 30} (omega (arith, h)) in
    ground (arith, fits)

-- For every count, one below 1 too, retry_backoff_seconds returns at least 2 and at most 300 seconds, and
-- no less for a larger count.
pub retry_backoff_seconds_range :
    (a b : ℤ)
    → pos_part a ≤ pos_part b
    → (2 ≤ retry_backoff_seconds a)
      × (retry_backoff_seconds a ≤ retry_backoff_seconds b)
      × (retry_backoff_seconds b ≤ 300)
unfolding retry_backoff_seconds max_retry_backoff_seconds
retry_backoff_seconds_range a b h =
    let least : 2 ^ 1 ≤ 2 ^ at_least_one a =
      pow-le-pow_right {n = 2} (omega arith) {i = 1} {j = at_least_one a} (omega arith) in
    let more : 2 ^ at_least_one a ≤ 2 ^ at_least_one b =
      pow-le-pow_right {n = 2} (omega arith) {i = at_least_one a} {j = at_least_one b}
        (omega (arith, h)) in
    omega (arith, least, more)
