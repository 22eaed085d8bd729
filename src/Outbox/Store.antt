-- ===== src/Outbox/Store.antt =====
-- The table `public.outbox_events` of app/models/social.py, and the session of its procedures.
use kelin_server.Prelude.{ℕ, Bool, true, false, String, List, Option, ◌==◌, Exec}

pub data JobStatus : Type 0 where
  pending claimed done retry dead : JobStatus

abbrev pub is_claimed : JobStatus → Bool
is_claimed claimed = true
is_claimed _ = false

-- `status IN ('pending', 'retry')`
abbrev pub is_waiting : JobStatus → Bool
is_waiting pending = true
is_waiting retry = true
is_waiting _ = false

-- The members of `payload` are texts or null.
pub record OutboxEvent : Type 0 where
  pub id : ℕ
  pub event_type : String
  pub aggregate_id : ℕ
  pub owner_id : Option ℕ
  pub dedupe_key : String
  pub payload : List (String × Option String)
  pub status : JobStatus
  pub available_at : ℕ
  pub created_at : ℕ
  pub attempt_count : ℕ
  pub max_attempts : ℕ
  pub locked_by : Option String
  pub locked_at : Option ℕ
  pub lease_expires_at : Option ℕ
  pub last_error_code : Option String
  pub processed_at : Option ℕ

-- A session: the table, the rows that other transactions have locked, and the transaction's mode.
pub record Session : Type 0 where
  pub events : List OutboxEvent
  pub locked_elsewhere : ℕ → Bool
  pub read_only : Bool

abbrev pub Action : Type 0 → Type 0
Action = Exec Session

abbrev pub has_id : ℕ → OutboxEvent → Bool
has_id job row = row.id == job
