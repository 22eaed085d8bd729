-- ===== src/Outbox/Due.antt =====
-- `picked`, the rows that `private.claim_due_outbox` of the migration
-- app/db/migrations/versions/20260908_0017_p17_devices_outbox_notifications.py claims.
use kelin_server.Prelude.{
  ℕ, min, Bool, true, false, ◌&&◌, ◌||◌, String, List, [], ◌∷◌, Option, none, some, take, ltb, leb,
  ◌==◌, str_eq, if◌then◌else◌,
}
use kelin_server.Prelude.Int.{ℤ}
use kelin_server.Outbox.Policy.{at_least_one, max_outbox_batch}
use kelin_server.Outbox.Store.{OutboxEvent, Session, is_waiting}

-- `p_event_types IS NULL OR o.event_type = ANY (p_event_types)`
abbrev pub in_types : String → List String → Bool
in_types name [] = false
in_types name (t ∷ ts) = str_eq name t || in_types name ts

abbrev pub is_requested : Option (List String) → String → Bool
is_requested none name = true
is_requested (some names) name = in_types name names

unfoldable pub is_due : ℕ → Option (List String) → (ℕ → Bool) → OutboxEvent → Bool
is_due now names locked_elsewhere row =
    is_waiting row.status
    && (leb row.available_at now
        && (is_requested names row.event_type && (if locked_elsewhere row.id then false else true)))

-- `ORDER BY o.available_at ASC, o.created_at ASC, o.id ASC`
unfoldable pub due_before : OutboxEvent → OutboxEvent → Bool
due_before a b =
    ltb a.available_at b.available_at
    || (a.available_at == b.available_at
        && (ltb a.created_at b.created_at || (a.created_at == b.created_at && leb a.id b.id)))

unfoldable pub insert_due : OutboxEvent → List OutboxEvent → List OutboxEvent
insert_due row [] = row ∷ []
insert_due row (other ∷ rest) =
    let inserted = insert_due row rest in
    if due_before row other then row ∷ other ∷ rest else other ∷ inserted

unfoldable pub due_events :
    ℕ → Option (List String) → (ℕ → Bool) → List OutboxEvent → List OutboxEvent
unfolding insert_due is_due
due_events now names locked_elsewhere [] = []
due_events now names locked_elsewhere (row ∷ rest) =
    let due = due_events now names locked_elsewhere rest in
    if is_due now names locked_elsewhere row then insert_due row due else due

-- `o.id = picked.id`
unfoldable pub is_picked : List OutboxEvent → OutboxEvent → Bool
is_picked [] row = false
is_picked (p ∷ picked) row = p.id == row.id || is_picked picked row

-- `LEAST(GREATEST(p_batch, 1), 50)`
unfoldable pub batch_size : ℤ → ℕ
unfolding max_outbox_batch
batch_size batch = min (at_least_one batch) max_outbox_batch

-- The rows that `picked` selects.
unfoldable pub picked_events : ℕ → ℤ → Option (List String) → Session → List OutboxEvent
unfolding batch_size due_events
picked_events now batch names s =
    take (batch_size batch) (due_events now names s.locked_elsewhere s.events)

-- The rows that an update changes, as `RETURNING` shows them.
unfoldable pub changed_events :
    (OutboxEvent → Bool) → (OutboxEvent → OutboxEvent) → List OutboxEvent → List OutboxEvent
changed_events picks change [] = []
changed_events picks change (row ∷ rest) =
    let changed = changed_events picks change rest in
    if picks row then change row ∷ changed else changed
