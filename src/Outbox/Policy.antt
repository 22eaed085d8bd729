-- ===== src/Outbox/Policy.antt =====
-- app/domain/outbox.py: how long a lease lasts, and how long a failed job waits.
pub mod Backoff
use kelin_server.Prelude.{
  ℕ, ◌+◌, ◌^◌, max, min, Result, bind_result, ok, err, database_error, leb, if◌then◌else◌,
}
use kelin_server.Prelude.Int.{ℤ, pos, pos_part}
use kelin_server.Clock.{Moment, require_aware}

unfoldable pub default_outbox_batch : ℤ
default_outbox_batch = pos 20

unfoldable pub default_outbox_lease_seconds : ℤ
default_outbox_lease_seconds = pos 120

unfoldable pub max_outbox_batch : ℕ
max_outbox_batch = 50

unfoldable pub max_retry_backoff_seconds : ℕ
max_retry_backoff_seconds = 300

-- `max(int(x), 1)`, and `GREATEST(x, 1)` in SQL
abbrev pub at_least_one : ℤ → ℕ
at_least_one x = max (pos_part x) 1

unfoldable pub lease_expires_at : Moment → ℤ → Result ℕ
unfolding require_aware
lease_expires_at now lease_seconds =
    bind_result (require_aware now) (λ t. ok (t + at_least_one lease_seconds))

unfoldable pub retry_backoff_seconds : ℤ → ℕ
unfolding max_retry_backoff_seconds
retry_backoff_seconds attempt_count = min max_retry_backoff_seconds (2 ^ at_least_one attempt_count)

-- `LEAST(300, POWER(2, GREATEST(attempt_count, 1))::integer)` in SQL, where the cast raises for a
-- power that a 32-bit integer does not hold.
unfoldable pub backoff_seconds_sql : ℕ → Result ℕ
backoff_seconds_sql attempt_count =
    if leb (2 ^ max attempt_count 1) 2147483647
    then ok (min 300 (2 ^ max attempt_count 1))
    else err (database_error "integer out of range")
