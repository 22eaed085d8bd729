-- ===== src/Notice/Rules.antt =====
-- app/domain/notifications.py: quiet hours, the day of a notification, its key and the care rule. A
-- time of day is a number of seconds since midnight.
use kelin_server.Prelude.{
  ℕ, ◌+◌, Bool, false, not, ◌&&◌, ◌||◌, String, List, [], ◌∷◌, Option, some, str_eq, contains, ltb,
  leb, if◌then◌else◌, Result, ok, err, bind_result, value_error, runtime_error, key_error,
}
use kelin_server.Prelude.Int.{ℤ, pos, leb_ℤ}
use kelin_server.Quota.Catalog.{Zones, coerce_timezone, local_usage_date}

-- What the time zones say of a time of day, beside `Zones`.
pub record Clocks : Type 0 where
  pub zones : Zones
  -- the local time of an instant
  pub local_time : String → ℕ → ℕ
  -- the instant of a local date and time, `datetime.combine(…).astimezone(UTC)`
  pub combine : String → ℕ → ℕ → ℕ

abbrev pub default_dnd_start : ℕ
default_dnd_start = 82800

abbrev pub default_dnd_end : ℕ
default_dnd_end = 28800

abbrev pub daily_active_notification_limit : ℕ
daily_active_notification_limit = 2

abbrev pub care_idle_after : ℕ
care_idle_after = 64800

abbrev pub is_server_local_only : String → Bool
is_server_local_only event_type = str_eq event_type "promise"

abbrev pub remote_notification_types : List String
remote_notification_types = "promise" ∷ "pact" ∷ "postcard" ∷ "lost" ∷ "care" ∷ []

abbrev pub fixed_alerts : List (String × String)
fixed_alerts =
    ("promise", "你有一个约定")
    ∷ ("pact", "共学有新进展")
    ∷ ("postcard", "你收到一张明信片")
    ∷ ("lost", "刻灵走失了")
    ∷ ("care", "刻灵想你了")
    ∷ []

-- `event_type in types`
unfoldable pub one_of : String → List String → Bool
one_of event_type [] = false
one_of event_type (name ∷ names) = str_eq event_type name || one_of event_type names

-- `FIXED_ALERTS[event_type]`
abbrev pub alert_in : List (String × String) → String → Result String
alert_in [] event_type = err (key_error event_type)
alert_in ((name, body) ∷ rest) event_type =
    if str_eq event_type name then ok body else alert_in rest event_type

unfoldable pub require_remote_type : String → Result String
require_remote_type event_type =
    if one_of event_type remote_notification_types
    then ok event_type
    else err (value_error "notification type is not in the catalog")

-- The words that no notification may show.
abbrev pub banned_words : List String
banned_words = "记忆" ∷ "对话" ∷ "坐标" ∷ "Prompt" ∷ "user_id" ∷ []

abbrev pub contains_any : List String → String → Bool
contains_any [] body = false
contains_any (part ∷ parts) body = contains part body || contains_any parts body

abbrev pub public_body : String → Result String
public_body body =
    if contains_any banned_words body
    then err (runtime_error "fixed alert must stay public")
    else ok body

unfoldable pub fixed_alert_body : String → Result String
unfolding require_remote_type
fixed_alert_body event_type =
    bind_result (require_remote_type event_type)
      (λ known. bind_result (alert_in fixed_alerts event_type) public_body)

module _ (k : Clocks) where
  -- The zone that a name stands for.
  abbrev pub zone_of : String → String
  zone_of timezone_name = coerce_timezone k.zones (some timezone_name)

  -- The local date and time of an instant.
  unfoldable pub local_clock : ℕ → String → ℕ × ℕ
  local_clock now timezone_name =
      (k.zones.local_date (zone_of timezone_name) now, k.local_time (zone_of timezone_name) now)

  unfoldable pub in_dnd : ℕ → String → ℕ → ℕ → Bool
  unfolding local_clock
  in_dnd now timezone_name dnd_start dnd_end =
      let (date, time) = local_clock now timezone_name in
      if leb dnd_start dnd_end
      then leb dnd_start time && ltb time dnd_end
      else leb dnd_start time || ltb time dnd_end

  unfoldable pub next_dnd_end : ℕ → String → ℕ → ℕ → ℕ
  unfolding local_clock
  next_dnd_end now timezone_name dnd_start dnd_end =
      let (date, time) = local_clock now timezone_name in
      let end_today = k.combine (zone_of timezone_name) date dnd_end in
      let end_tomorrow = k.combine (zone_of timezone_name) (date + 1) dnd_end in
      if ltb dnd_end dnd_start
      then (if leb dnd_start time then end_tomorrow else end_today)
      else (if ltb time dnd_end then end_today else end_tomorrow)

  unfoldable pub scheduled_for : ℕ → String → ℕ → ℕ → ℕ
  unfolding in_dnd next_dnd_end
  scheduled_for now timezone_name dnd_start dnd_end =
      if in_dnd now timezone_name dnd_start dnd_end
      then next_dnd_end now timezone_name dnd_start dnd_end
      else now

  unfoldable pub notification_local_date : ℕ → String → ℕ
  notification_local_date now timezone_name = local_usage_date k.zones now (zone_of timezone_name)

-- `push:{event_type}:{resource}:{owner_id}:{local_date}`
pub record PushKey : Type 0 where
  pub event_type : String
  pub resource_id : Option ℕ
  pub owner_id : ℕ
  pub local_date : ℕ

unfoldable pub push_dedupe_key : String → Option ℕ → ℕ → ℕ → Result PushKey
unfolding require_remote_type
push_dedupe_key event_type resource_id owner_id local_date =
    bind_result (require_remote_type event_type) (λ name. ok (record {
      event_type = name;
      resource_id = resource_id;
      owner_id = owner_id;
      local_date = local_date;
    }))

unfoldable pub care_is_eligible : Bool → String → ℕ → ℕ → Bool → ℤ → Bool
care_is_eligible push_on status last_interact_at now in_quiet_hours remaining_quota =
    if not push_on || in_quiet_hours || leb_ℤ remaining_quota (pos 0)
    then false
    else if str_eq status "lost"
    then false
    else leb (last_interact_at + care_idle_after) now
