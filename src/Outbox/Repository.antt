-- ===== src/Outbox/Repository.antt =====
-- app/repositories/outbox.py, over the procedures.
use kelin_server.Prelude.{
  ℕ, String, List, [], ◌∷◌, Option, none, some, pure, runtime_error, raise_if, ◌>>=◌,
}
use kelin_server.Prelude.Int.{ℤ}
use kelin_server.Outbox.Store.{OutboxEvent, Action}
use kelin_server.Outbox.Procedures

pub record OutboxJob : Type 0 where
  pub id : ℕ
  pub event_type : String
  pub aggregate_id : ℕ
  pub owner_id : Option ℕ
  pub dedupe_key : String
  pub payload : List (String × Option String)
  pub locked_by : String
  pub attempt_count : ℕ

unfoldable pub assert_writable_transaction : Action (Unit {0})
assert_writable_transaction s =
    raise_if s.read_only (runtime_error "outbox cannot write in a read-only transaction") s

-- `str(row["locked_by"])`
abbrev text_of : Option String → String
text_of none = "None"
text_of (some s) = s

abbrev job_of : OutboxEvent → OutboxJob
job_of row = record {
  id = row.id;
  event_type = row.event_type;
  aggregate_id = row.aggregate_id;
  owner_id = row.owner_id;
  dedupe_key = row.dedupe_key;
  payload = row.payload;
  locked_by = text_of row.locked_by;
  attempt_count = row.attempt_count;
}

abbrev jobs_of : List OutboxEvent → List OutboxJob
jobs_of [] = []
jobs_of (row ∷ rows) = job_of row ∷ jobs_of rows

unfoldable pub claim_due_outbox :
    ℕ → String → ℤ → ℤ → Option (List String) → Action (List OutboxJob)
claim_due_outbox now worker_id batch lease_seconds event_types = do
  rows ← Procedures.claim_due_outbox now batch worker_id lease_seconds event_types
  pure (jobs_of rows)
