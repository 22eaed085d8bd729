-- ===== src/Pact/Days.antt =====
-- The days of a pact.
use kelin_server.Prelude.{ℕ, ◌+◌, ◌≤◌, ◌≡◌, ◌↔◌, some, arith}
use kelin_server.Pact.Calendar.{session_day_index}

-- A date is the day `index` of a pact exactly when the index is from 1 to 7 and the date lies as many days after the first.
pub session_day_index_iff :
    (week_start session_date index : ℕ)
    → (session_day_index week_start session_date ≡ some index)
      ↔ ((1 ≤ index) × (index ≤ 7) × (session_date + 1 ≡ week_start + index))
unfolding session_day_index
session_day_index_iff week_start session_date index = ground arith
