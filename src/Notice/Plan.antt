-- ===== src/Notice/Plan.antt =====
-- The planner's choice in app/services/notification_planner.py: whether a notification is
-- delivered, when, and under which key.
use kelin_server.Prelude.{
  ℕ, Bool, false, not, ◌||◌, String, Option, none, some, str_eq, leb, ◌==◌, if◌then◌else◌, Result,
  ok, bind_result, pure, lift, ◌>>=◌,
}
use kelin_server.Prelude.Int.{ℤ, pos, sub_ℕ, leb_ℤ}
use kelin_server.Notice.Rules.{
  Clocks, PushKey, daily_active_notification_limit, is_server_local_only, in_dnd, scheduled_for,
  notification_local_date, push_dedupe_key, care_is_eligible,
}
use kelin_server.Notice.Store.{DeliveryStatus, pending, suppressed, NotificationPrefs, Action}
use kelin_server.Notice.Deliveries.{count_active_events}

-- Where a delivery goes, and when.
pub record Plan : Type 0 where
  pub status : DeliveryStatus
  pub when : ℕ
  pub dedupe : PushKey

module _ (k : Clocks) where
  -- The care rule, where there is a spirit.
  unfoldable pub care_eligible : NotificationPrefs → ℕ → Bool → ℤ → Bool
  unfolding care_is_eligible
  care_eligible prefs now quiet remaining = elim prefs.spirit_status [
    | none ↦ false
    | some status ↦ elim prefs.last_interact_at [
      | none ↦ false
      | some last ↦ care_is_eligible prefs.push_on status last now quiet remaining
    ]
  ]

  module _ (owner now : ℕ) (event_type : String) (resource : Option ℕ) (local_day : ℕ)
      (dedupe : PushKey) where
    abbrev pub plan_as : DeliveryStatus → ℕ → PushKey → Plan
    plan_as status when key = record { status = status; when = when; dedupe = key }

    -- The later day of a notification that quiet hours put off has room for it, or not.
    unfoldable pub plan_later : ℕ → ℕ → ℕ → Result Plan
    unfolding push_dedupe_key
    plan_later when later_day later_used =
        if leb daily_active_notification_limit later_used
        then ok (plan_as suppressed when dedupe)
        else bind_result (push_dedupe_key event_type resource owner later_day)
            (λ key. ok (plan_as pending when key))

    unfoldable pub plan_quiet : NotificationPrefs → Action Plan
    unfolding scheduled_for notification_local_date count_active_events plan_later
    plan_quiet prefs =
        let when = scheduled_for k now prefs.timezone prefs.dnd_start prefs.dnd_end in
        let later_day = notification_local_date k when prefs.timezone in
        if later_day == local_day then pure (plan_as pending when dedupe) else (do
          later_used ← count_active_events k.zones owner later_day prefs.timezone
          lift (plan_later when later_day later_used))

    -- What is planned where notifications are on, by how many the local day has.
    unfoldable pub plan_counted : NotificationPrefs → ℕ → Action Plan
    unfolding in_dnd plan_quiet care_eligible
    plan_counted prefs used =
        let quiet = in_dnd k now prefs.timezone prefs.dnd_start prefs.dnd_end in
        let remaining = sub_ℕ daily_active_notification_limit used in
        if str_eq event_type "care"
        then pure (
            plan_as (if care_eligible prefs now quiet remaining then pending else suppressed) now
              dedupe)
        else if leb_ℤ remaining (pos 0)
        then pure (plan_as suppressed now dedupe)
        else if quiet
        then plan_quiet prefs
        else pure (plan_as pending now dedupe)

    unfoldable pub plan_with : NotificationPrefs → Action Plan
    unfolding count_active_events plan_counted
    plan_with prefs =
        if is_server_local_only event_type || not prefs.push_on
        then pure (plan_as suppressed now dedupe)
        else count_active_events k.zones owner local_day prefs.timezone >>= plan_counted prefs

    unfoldable pub make_plan : Option NotificationPrefs → Action Plan
    unfolding plan_with
    make_plan none = pure (plan_as suppressed now dedupe)
    make_plan (some prefs) = plan_with prefs
