-- ===== src/Outbox/Rows.antt =====
-- One row of `outbox_events`: the tests of the procedures' `WHERE` clauses and the values of their
-- `SET` clauses, in the migrations 20260908_0015_visit_settle.py (`reclaim_row`) and
-- 20260908_0017_p17_devices_outbox_notifications.py of app/db/migrations/versions.
use kelin_server.Prelude.{
  ℕ, ◌+◌, ◌-◌, Bool, true, false, ◌&&◌, String, Option, none, some, ltb, leb, str_eq, btrim,
  if◌then◌else◌, Result, ok, err,
}
use kelin_server.Prelude.Int.{ℤ}
use kelin_server.Outbox.Policy.{at_least_one, backoff_seconds_sql}
use kelin_server.Outbox.Store.{pending, claimed, done, retry, dead, OutboxEvent, is_claimed, has_id}

-- The instant at which a job that has failed is due again.
abbrev pub seconds_or_zero : Result ℕ → ℕ
seconds_or_zero (ok t) = t
seconds_or_zero (err e) = 0

abbrev pub overflows : Result ℕ → Bool
overflows (ok t) = false
overflows (err e) = true

abbrev pub is_last_attempt : OutboxEvent → Bool
is_last_attempt row = leb row.max_attempts row.attempt_count

-- The `CASE` that computes a backoff raises on a row of its `ELSE` branch.
abbrev pub backoff_raises : OutboxEvent → Bool
unfolding backoff_seconds_sql
backoff_raises row =
    if is_last_attempt row then false else overflows (backoff_seconds_sql row.attempt_count)

-- `btrim(p_worker_id) = ''`
unfoldable pub is_blank : String → Bool
unfolding btrim
is_blank s = str_eq (btrim s) ""

abbrev pub lease_expired : ℕ → Option ℕ → Bool
lease_expired now none = false
lease_expired now (some until) = ltb until now

-- `lease_expires_at IS NULL OR lease_expires_at > p_now`
abbrev pub lease_open : ℕ → Option ℕ → Bool
lease_open now none = true
lease_open now (some until) = ltb now until

-- `lease_expires_at IS NOT NULL AND lease_expires_at > p_now`
abbrev pub lease_running : ℕ → Option ℕ → Bool
lease_running now none = false
lease_running now (some until) = ltb now until

abbrev pub is_locked_by : String → Option String → Bool
is_locked_by worker none = false
is_locked_by worker (some holder) = str_eq holder worker

-- The columns that every return of a job to the queue resets.
abbrev pub unlock : OutboxEvent → OutboxEvent
unlock row = record row { locked_by = none; locked_at = none; lease_expires_at = none }

-- `available_at` after a failure, where attempts are left.
abbrev pub backoff_until : ℕ → OutboxEvent → ℕ
unfolding backoff_seconds_sql
backoff_until now row = now + seconds_or_zero (backoff_seconds_sql row.attempt_count)

-- `COALESCE(last_error_code, …)`
abbrev pub or_code : Option String → String → String
or_code none code = code
or_code (some old) code = old

unfoldable pub is_lapsed : ℕ → OutboxEvent → Bool
is_lapsed now row = is_claimed row.status && lease_expired now row.lease_expires_at

unfoldable pub reclaim_row : ℕ → OutboxEvent → OutboxEvent
reclaim_row now row =
    if is_last_attempt row
    then record (unlock row) {
      status = dead;
      last_error_code = some (or_code row.last_error_code "LEASE_EXPIRED");
    }
    else record (unlock row) {
      status = retry;
      last_error_code = some "LEASE_EXPIRED";
      available_at = backoff_until now row;
    }

unfoldable pub claim_row : ℕ → String → ℤ → OutboxEvent → OutboxEvent
claim_row now worker_id lease_seconds row = record row {
  status = claimed;
  locked_by = some worker_id;
  locked_at = some now;
  lease_expires_at = some (now + at_least_one lease_seconds);
  attempt_count = row.attempt_count + 1;
}

-- `id = p_id AND locked_by = p_locked_by AND status = 'claimed' AND …`
unfoldable pub is_held : ℕ → String → ℕ → OutboxEvent → Bool
is_held job locked_by now row =
    has_id job row
    && (is_locked_by locked_by row.locked_by
        && (is_claimed row.status && lease_open now row.lease_expires_at))

unfoldable pub is_renewable : ℕ → String → ℕ → OutboxEvent → Bool
is_renewable job locked_by now row =
    has_id job row
    && (is_locked_by locked_by row.locked_by
        && (is_claimed row.status && lease_running now row.lease_expires_at))

unfoldable pub renew_row : ℕ → ℤ → OutboxEvent → OutboxEvent
renew_row now lease_seconds row = record row {
  locked_at = some now;
  lease_expires_at = some (now + at_least_one lease_seconds);
}

unfoldable pub complete_row : ℕ → OutboxEvent → OutboxEvent
complete_row now row = record (unlock row) { status = done; processed_at = some now }

-- `COALESCE(NULLIF(btrim(p_error), ''), 'HANDLER_FAILED')`
unfoldable pub error_code : String → String
error_code error = if is_blank error then "HANDLER_FAILED" else btrim error

unfoldable pub fail_row : ℕ → String → OutboxEvent → OutboxEvent
fail_row now error row =
    if is_last_attempt row
    then record (unlock row) {
      status = dead;
      last_error_code = some (error_code error);
      processed_at = some now;
    }
    else record (unlock row) {
      status = retry;
      last_error_code = some (error_code error);
      available_at = backoff_until now row;
    }

unfoldable pub release_row : ℕ → OutboxEvent → OutboxEvent
release_row available_at row = record (unlock row) {
  status = pending;
  available_at = available_at;
  attempt_count = row.attempt_count - 1;
}
