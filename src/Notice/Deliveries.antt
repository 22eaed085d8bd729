-- ===== src/Notice/Deliveries.antt =====
-- The statements of app/repositories/notifications.py on `notification_deliveries`: the count of the
-- active notifications of a day, and `private.upsert_notification_delivery` of the migration
-- app/db/migrations/versions/20260908_0017_p17_devices_outbox_notifications.py.
use kelin_server.Prelude.{
  ℕ, ◌+◌, Bool, true, false, ◌&&◌, ◌||◌, String, List, [], ◌∷◌, ◌++◌, Option, none, some, str_eq,
  ◌==◌, if◌then◌else◌, length, find?, update_where, ok, err, database_error,
}
use kelin_server.Quota.Catalog.{Zones}
use kelin_server.Notice.Rules.{PushKey}
use kelin_server.Notice.Store.{DeliveryStatus, is_active, is_final, is_planned, Delivery, Action}

abbrev pub same_option : Option ℕ → Option ℕ → Bool
same_option none none = true
same_option none (some b) = false
same_option (some a) none = false
same_option (some a) (some b) = a == b

unfoldable pub same_push_key : PushKey → PushKey → Bool
same_push_key a b =
    str_eq a.event_type b.event_type
    && (same_option a.resource_id b.resource_id
        && (a.owner_id == b.owner_id && a.local_date == b.local_date))

abbrev pub has_key : PushKey → List PushKey → Bool
has_key key [] = false
has_key key (k ∷ ks) = same_push_key key k || has_key key ks

-- `DISTINCT`
unfoldable pub distinct : List PushKey → List PushKey
distinct [] = []
distinct (k ∷ ks) = let rest = distinct ks in if has_key k rest then rest else k ∷ rest

module _ (z : Zones) where
  -- The keys of the active deliveries of an owner on a local date.
  unfoldable pub active_keys : ℕ → ℕ → String → List Delivery → List PushKey
  active_keys owner local_date timezone_name [] = []
  active_keys owner local_date timezone_name (row ∷ rows) =
      let rest = active_keys owner local_date timezone_name rows in
      if row.user_id == owner
        && (is_active row.status && z.local_date timezone_name row.scheduled_for == local_date)
      then row.dedupe_key ∷ rest
      else rest

  -- `AT TIME ZONE` raises on a name that is not a zone's.
  unfoldable pub count_active_events : ℕ → ℕ → String → Action ℕ
  unfolding active_keys distinct
  count_active_events owner local_date timezone_name s = (
    (if z.known timezone_name
        then ok (length (distinct (active_keys owner local_date timezone_name s.deliveries)))
        else err (database_error "time zone not recognized")),
    s,
  )

-- `uq_notification_deliveries_dedupe_key_device_id`, where nulls are not distinct
unfoldable pub same_delivery : PushKey → Option ℕ → Delivery → Bool
same_delivery key device row = same_push_key row.dedupe_key key && same_option row.device_id device

-- `CASE WHEN status IN ('pending', 'retry') THEN scheduled_for ELSE NULL END`
abbrev attempt_at : DeliveryStatus → ℕ → Option ℕ
attempt_at status when = if is_planned status then some when else none

-- `DO UPDATE SET`
unfoldable pub redeliver : ℕ → DeliveryStatus → Delivery → Delivery
redeliver when status row = if is_final row.status then row else record row {
  scheduled_for = when;
  status = status;
  next_attempt_at = attempt_at status when;
}

abbrev id_or : ℕ → Option Delivery → ℕ
id_or next none = next
id_or next (some row) = row.id

-- `INSERT … ON CONFLICT … DO UPDATE SET … RETURNING id`
unfoldable pub upsert_delivery :
    ℕ → Option ℕ → String → Option ℕ → PushKey → ℕ → DeliveryStatus → Action ℕ
unfolding same_delivery redeliver
upsert_delivery owner device event_type resource key when status s =
    let found = find? (same_delivery key device) s.deliveries in
    let inserted : Delivery = record {
      id = s.next_id;
      user_id = owner;
      device_id = device;
      event_type = event_type;
      resource_id = resource;
      dedupe_key = key;
      scheduled_for = when;
      status = status;
      next_attempt_at = attempt_at status when;
    } in
    (
      ok (id_or s.next_id found),
      elim found [
        | none ↦ record s { deliveries = s.deliveries ++ inserted ∷ []; next_id = s.next_id + 1 }
        | some old ↦ record s {
          deliveries = update_where (same_delivery key device) (redeliver when status) s.deliveries;
        }
      ],
    )
