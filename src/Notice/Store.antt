-- ===== src/Notice/Store.antt =====
-- The tables that the planner reads and writes, beside the outbox, and the statements of
-- app/repositories/notifications.py on them.
use kelin_server.Prelude.{
  ℕ, Bool, true, false, ◌&&◌, ◌||◌, String, List, [], ◌∷◌, Option, none, some, ltb, leb, ◌==◌,
  if◌then◌else◌, find?, Exec, raise_if, runtime_error,
}
use kelin_server.Notice.Rules.{PushKey}
use kelin_server.Outbox

pub data DeliveryStatus : Type 0 where
  pending claimed sent suppressed retry dead : DeliveryStatus

-- `status IN ('pending', 'claimed', 'sent', 'retry')`
abbrev pub is_active : DeliveryStatus → Bool
is_active pending = true
is_active claimed = true
is_active sent = true
is_active retry = true
is_active suppressed = false
is_active dead = false

-- `status IN ('sent', 'dead')`
abbrev pub is_final : DeliveryStatus → Bool
is_final sent = true
is_final dead = true
is_final _ = false

-- `status IN ('pending', 'retry')`
abbrev pub is_planned : DeliveryStatus → Bool
is_planned pending = true
is_planned retry = true
is_planned _ = false

-- A row of `public.notification_deliveries`, with the columns that the planner reads or writes.
pub record Delivery : Type 0 where
  pub id : ℕ
  pub user_id : ℕ
  pub device_id : Option ℕ
  pub event_type : String
  pub resource_id : Option ℕ
  pub dedupe_key : PushKey
  pub scheduled_for : ℕ
  pub status : DeliveryStatus
  pub next_attempt_at : Option ℕ

-- What is read of `public.user_preferences`, `public.spirits` and `public.devices`.
pub record PreferenceRow : Type 0 where
  pub user_id : ℕ
  pub push_on : Bool
  pub timezone : String
  pub dnd_start : ℕ
  pub dnd_end : ℕ

pub record SpiritRow : Type 0 where
  pub id : ℕ
  pub user_id : ℕ
  pub status : String
  pub last_interact_at : ℕ

pub record DeviceRow : Type 0 where
  pub id : ℕ
  pub user_id : ℕ
  pub notifications_enabled : Bool
  pub invalidated_at : Option ℕ
  pub last_seen_at : ℕ

pub record Session : Type 0 where
  pub outbox : Outbox.Store.Session
  pub deliveries : List Delivery
  pub preferences : List PreferenceRow
  pub spirits : List SpiritRow
  pub devices : List DeviceRow
  pub next_id : ℕ

abbrev pub Action : Type 0 → Type 0
Action = Exec Session

pub record NotificationPrefs : Type 0 where
  pub push_on : Bool
  pub timezone : String
  pub dnd_start : ℕ
  pub dnd_end : ℕ
  pub spirit_id : Option ℕ
  pub spirit_status : Option String
  pub last_interact_at : Option ℕ

unfoldable pub assert_writable_transaction : Action (Unit {0})
assert_writable_transaction s =
    raise_if s.outbox.read_only
      (runtime_error "notification planner cannot write in a read-only transaction") s

-- `LEFT JOIN public.spirits s ON s.user_id = p.user_id`; a user has one spirit.
abbrev prefs_of : PreferenceRow → Option SpiritRow → NotificationPrefs
prefs_of row none = record {
  push_on = row.push_on;
  timezone = row.timezone;
  dnd_start = row.dnd_start;
  dnd_end = row.dnd_end;
  spirit_id = none;
  spirit_status = none;
  last_interact_at = none;
}
prefs_of row (some spirit) = record {
  push_on = row.push_on;
  timezone = row.timezone;
  dnd_start = row.dnd_start;
  dnd_end = row.dnd_end;
  spirit_id = some spirit.id;
  spirit_status = some spirit.status;
  last_interact_at = some spirit.last_interact_at;
}

unfoldable pub load_prefs : ℕ → Session → Option NotificationPrefs
load_prefs owner s = elim (find? (λ p. p.user_id == owner) s.preferences) [
  | none ↦ none
  | some row ↦ some (prefs_of row (find? (λ r. r.user_id == owner) s.spirits))
]

-- `ORDER BY last_seen_at DESC, id ASC`
abbrev seen_before : DeviceRow → DeviceRow → Bool
seen_before a b =
    ltb b.last_seen_at a.last_seen_at || (a.last_seen_at == b.last_seen_at && leb a.id b.id)

abbrev insert_seen : DeviceRow → List DeviceRow → List DeviceRow
insert_seen row [] = row ∷ []
insert_seen row (other ∷ rest) =
    let inserted = insert_seen row rest in
    if seen_before row other then row ∷ other ∷ rest else other ∷ inserted

abbrev is_enabled : ℕ → DeviceRow → Bool
is_enabled owner row =
    row.user_id == owner
    && (row.notifications_enabled && elim row.invalidated_at [ none ↦ true | some t ↦ false ])

unfoldable pub enabled_devices : ℕ → List DeviceRow → List DeviceRow
enabled_devices owner [] = []
enabled_devices owner (row ∷ rest) =
    let enabled = enabled_devices owner rest in
    if is_enabled owner row then insert_seen row enabled else enabled

abbrev device_ids : List DeviceRow → List ℕ
device_ids [] = []
device_ids (row ∷ rows) = row.id ∷ device_ids rows

unfoldable pub list_enabled_devices : ℕ → Session → List ℕ
unfolding enabled_devices
list_enabled_devices owner s = device_ids (enabled_devices owner s.devices)
