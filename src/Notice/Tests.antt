-- ===== src/Notice/Tests.antt =====
-- Runs of the planner, and the theorems about it at concrete inputs.
use kelin_server.Prelude.{
  ℕ, ◌+◌, ◌*◌, ◌/◌, ◌%◌, ◌≡◌, refl, true, false, none, some, ok, err, [], ◌∷◌, String, Option,
  arith, str_eq, strip_string, ◌⊎◌, value_error, map, In, contains,
}
use kelin_server.Clock.{aware}
use kelin_server.Quota.Catalog.{coerce_timezone, local_usage_date}
use kelin_server.Outbox
use kelin_server.Outbox.Procedures.{complete_outbox_job}
use kelin_server.Outbox.Rows.{is_blank}
use kelin_server.Outbox.Repository.{OutboxJob}
use kelin_server.Notice.Rules.{
  Clocks, zone_of, in_dnd, scheduled_for, require_remote_type, fixed_alert_body, banned_words,
  one_of,
}
use kelin_server.Notice.Store.{Session, Delivery, sent, NotificationPrefs, load_prefs}
use kelin_server.Notice.Deliveries.{active_keys, distinct, same_push_key}
use kelin_server.Notice.Planner.{plan_notification_job}
use kelin_server.Notice.Cap.{IsCapped}
use kelin_server.Notice.Quiet.{scheduled_for-in_dnd}
use kelin_server.Notice.Texts.{fixed_alert_body-require_remote_type}
use kelin_server.Notice.Planned.{plan_notification_job-IsCapped}

-- One zone, whose days begin at multiples of 86400 seconds.
abbrev clocks : Clocks
clocks = record {
  zones = record {
    known = λ name. str_eq name "Asia/Shanghai";
    local_date = λ name t. t / 86400;
    midnight = λ name d. d * 86400;
  };
  local_time = λ name t. t % 86400;
  combine = λ name d t. d * 86400 + t;
}

abbrev no_uuid : String → Option ℕ
no_uuid text = none

abbrev job : OutboxJob
job = record {
  id = 1;
  event_type = "notification.plan_user";
  aggregate_id = 9;
  owner_id = some 7;
  dedupe_key = "push:pact:9";
  payload = ("type", some "pact") ∷ [];
  locked_by = "a";
  attempt_count = 1;
}

abbrev earlier : Delivery
earlier = record {
  id = 0;
  user_id = 7;
  device_id = some 3;
  event_type = "postcard";
  resource_id = none;
  dedupe_key = record { event_type = "postcard"; resource_id = none; owner_id = 7; local_date = 0 };
  scheduled_for = 40000;
  status = sent;
  next_attempt_at = none;
}

abbrev evening : Session
evening = record {
  outbox = record {
    events =
        record {
          id = 1;
          event_type = "notification.plan_user";
          aggregate_id = 9;
          owner_id = some 7;
          dedupe_key = "push:pact:9";
          payload = ("type", some "pact") ∷ [];
          status = Outbox.Store.claimed;
          available_at = 80000;
          created_at = 80000;
          attempt_count = 1;
          max_attempts = 8;
          locked_by = some "a";
          locked_at = some 84000;
          lease_expires_at = some 84120;
          last_error_code = none;
          processed_at = none;
        }
        ∷ [];
    locked_elsewhere = λ id. false;
    read_only = false;
  };
  deliveries = earlier ∷ [];
  preferences =
      record {
        user_id = 7;
        push_on = true;
        timezone = "Asia/Shanghai";
        dnd_start = 82800;
        dnd_end = 28800;
      }
      ∷ [];
  spirits = [];
  devices =
      record {
        id = 3;
        user_id = 7;
        notifications_enabled = true;
        invalidated_at = none;
        last_seen_at = 1;
      }
      ∷ [];
  next_id = 1;
}

abbrev prefs : NotificationPrefs
prefs = record {
  push_on = true;
  timezone = "Asia/Shanghai";
  dnd_start = 82800;
  dnd_end = 28800;
  spirit_id = none;
  spirit_status = none;
  last_interact_at = none;
}

zone_kept : zone_of clocks "Asia/Shanghai" ≡ "Asia/Shanghai"
unfolding coerce_timezone strip_string
zone_kept = refl

-- A notification that falls into the quiet hours is planned for their end, on the next day.
plans_for_morning :
    map
      (λ (d : Delivery). d.scheduled_for)
      (plan_notification_job clocks no_uuid job (aware 84000) evening).1.deliveries
    ≡ 40000 ∷ 115200 ∷ []
unfolding plan_notification_job coerce_timezone strip_string local_usage_date complete_outbox_job
    is_blank same_push_key one_of
plans_for_morning = refl

plan_notification_job-IsCapped_example :
    IsCapped clocks.zones 7 "Asia/Shanghai"
      (plan_notification_job clocks no_uuid job (aware 84000) evening).1.deliveries
unfolding load_prefs active_keys distinct
plan_notification_job-IsCapped_example =
    plan_notification_job-IsCapped clocks no_uuid 7 prefs zone_kept job (aware 84000) evening refl
      refl (λ day. ground arith)

scheduled_for-in_dnd_example :
    in_dnd clocks
      (scheduled_for clocks 84000 "Asia/Shanghai" 82800 28800)
      "Asia/Shanghai"
      82800
      28800
    ≡ false
scheduled_for-in_dnd_example =
    scheduled_for-in_dnd clocks 84000 "Asia/Shanghai" 82800 28800 (λ date. omega arith)

fixed_alert_body-require_remote_type_example :
    ((require_remote_type "pact" ≡ ok "pact")
      × (body : String) × (fixed_alert_body "pact" ≡ ok body)
      × ((word : String) → In word banned_words → contains word body ≡ false))
    ⊎ ((require_remote_type "pact" ≡ err (value_error "notification type is not in the catalog"))
        × (fixed_alert_body "pact" ≡ err (value_error "notification type is not in the catalog")))
fixed_alert_body-require_remote_type_example = fixed_alert_body-require_remote_type "pact"
