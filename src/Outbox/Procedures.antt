-- ===== src/Outbox/Procedures.antt =====
-- The procedures on `outbox_events`: `private.reclaim_expired_outbox` of the migration
-- app/db/migrations/versions/20260908_0015_visit_settle.py, the others of
-- 20260908_0017_p17_devices_outbox_notifications.py there.
use kelin_server.Prelude.{
  ℕ, Bool, ◌&&◌, not, String, List, Option, find?, update_where, count, ◌==◌, is_some, ok,
  database_error, pure, gets, modify, raise_if, ◌>>=◌, ◌>>◌,
}
use kelin_server.Prelude.Int.{ℤ}
use kelin_server.Outbox.Store.{OutboxEvent, Action}
use kelin_server.Outbox.Rows.{
  backoff_raises, is_blank, is_lapsed, reclaim_row, claim_row, is_held, is_renewable, renew_row,
  complete_row, fail_row, release_row,
}
use kelin_server.Outbox.Due.{is_picked, picked_events, changed_events}

-- `UPDATE … SET … WHERE …`, which returns how many rows it changed.
abbrev pub update_events : (OutboxEvent → Bool) → (OutboxEvent → OutboxEvent) → Action ℕ
update_events picks change s =
    (ok (count picks s.events), record s { events = update_where picks change s.events })

unfoldable pub reclaim_expired_outbox : ℕ → Action ℕ
unfolding is_lapsed
reclaim_expired_outbox now = do
  rows ← gets (λ s. s.events)
  raise_if (is_some (find? (λ r. is_lapsed now r && backoff_raises r) rows))
      (database_error "integer out of range")
  update_events (is_lapsed now) (reclaim_row now)

unfoldable pub claim_due_outbox :
    ℕ → ℤ → String → ℤ → Option (List String) → Action (List OutboxEvent)
unfolding picked_events is_picked claim_row changed_events
claim_due_outbox now batch worker_id lease_seconds names = do
  raise_if (is_blank worker_id) (database_error "claim inputs are required")
  picked ← gets (picked_events now batch names)
  rows ← gets (λ s. s.events)
  modify (λ s. record s {
    events = update_where (is_picked picked) (claim_row now worker_id lease_seconds) s.events;
  })
  pure (changed_events (is_picked picked) (claim_row now worker_id lease_seconds) rows)

-- A procedure on one job: it reports whether it changed exactly one row.
abbrev pub update_job :
    String → String → (OutboxEvent → Bool) → (OutboxEvent → OutboxEvent) → Action Bool
update_job locked_by message picks change = do
  raise_if (is_blank locked_by) (database_error message)
  updated ← update_events picks change
  pure (updated == 1)

unfoldable pub renew_outbox_lease : ℕ → String → ℕ → ℤ → Action Bool
unfolding is_renewable renew_row
renew_outbox_lease job locked_by now lease_seconds =
    update_job locked_by "renew inputs are required" (is_renewable job locked_by now)
      (renew_row now lease_seconds)

unfoldable pub complete_outbox_job : ℕ → String → ℕ → Action Bool
unfolding is_held complete_row
complete_outbox_job job locked_by now =
    update_job locked_by "complete inputs are required" (is_held job locked_by now)
      (complete_row now)

unfoldable pub fail_outbox_job : ℕ → String → ℕ → String → Action Bool
unfolding is_held fail_row
fail_outbox_job job locked_by now error = do
  rows ← gets (λ s. s.events)
  raise_if
      (not (is_blank locked_by)
        && is_some (find? (λ r. is_held job locked_by now r && backoff_raises r) rows))
      (database_error "integer out of range")
  update_job locked_by "fail inputs are required" (is_held job locked_by now) (fail_row now error)

unfoldable pub release_outbox_until : ℕ → String → ℕ → ℕ → Action Bool
unfolding is_held release_row
release_outbox_until job locked_by available_at now =
    update_job locked_by "release inputs are required" (is_held job locked_by now)
      (release_row available_at)
