-- ===== src/Notice/Planner.antt =====
-- app/services/notification_planner.py: what a claimed job of the outbox delivers.
use kelin_server.Prelude.{
  ◌>>◌, ℕ, Bool, true, false, not, String, List, [], ◌∷◌, Option, none, some, str_eq, starts_with,
  if◌then◌else◌, Result, ok, err, bind_result, pure, lift, gets, value_error, ◌>>=◌, ◌>>◌,
}
use kelin_server.Clock.{Moment, require_aware}
use kelin_server.Notice.Rules.{
  PushKey, Clocks, require_remote_type, fixed_alert_body, notification_local_date, push_dedupe_key,
}
use kelin_server.Notice.Store.{
  DeliveryStatus, pending, suppressed, dead, NotificationPrefs, Action, assert_writable_transaction,
  load_prefs, list_enabled_devices,
}
use kelin_server.Notice.Deliveries.{upsert_delivery}
use kelin_server.Outbox
use kelin_server.Outbox.Repository.{OutboxJob}
use kelin_server.Outbox.Procedures.{complete_outbox_job, fail_outbox_job}
use kelin_server.Notice.Plan.{Plan, make_plan}

pub record NotificationPlanResult : Type 0 where
  pub job_id : ℕ
  pub owner_id : ℕ
  pub event_type : String
  pub status : DeliveryStatus
  pub delivery_ids : List ℕ
  pub fenced : Bool

-- A call on the outbox of the session.
abbrev pub on_outbox : {A : Type 0} → Outbox.Store.Action A → Action A
on_outbox m s = let (r, o) = m s.outbox in (r, record s { outbox = o })

-- `job.payload.get(…)`
abbrev member : String → List (String × Option String) → Option String
member name [] = none
member name ((key, value) ∷ rest) = if str_eq key name then value else member name rest

abbrev text_or_empty : Option String → String
text_or_empty none = ""
text_or_empty (some text) = text

unfoldable pub payload_type : OutboxJob → Result String
unfolding require_remote_type
payload_type job =
    let raw = text_or_empty (member "type" job.payload) in
    if str_eq raw ""
    then (if starts_with job.dedupe_key "push:care:"
        then ok "care"
        else err (value_error "notification plan payload type is required"))
    else require_remote_type raw

abbrev pub is_suppressed : DeliveryStatus → Bool
is_suppressed suppressed = true
is_suppressed _ = false

module _ (owner : ℕ) (event_type : String) (resource : Option ℕ) where
  -- One delivery per device.
  unfoldable pub deliver_all : Plan → List ℕ → Action (List ℕ)
  unfolding upsert_delivery
  deliver_all plan [] = pure []
  deliver_all plan (device ∷ devices) = do
    id ← upsert_delivery owner (some device) event_type resource plan.dedupe plan.when pending
    ids ← deliver_all plan devices
    pure (id ∷ ids)

  unfoldable pub deliver_none : Plan → Action (DeliveryStatus × List ℕ)
  unfolding upsert_delivery
  deliver_none plan = do
    id ← upsert_delivery owner none event_type resource plan.dedupe plan.when suppressed
    pure (suppressed, id ∷ [])

  unfoldable pub deliver_to : Plan → List ℕ → Action (DeliveryStatus × List ℕ)
  unfolding deliver_all deliver_none
  deliver_to plan [] = deliver_none plan
  deliver_to plan (device ∷ devices) = do
    ids ← deliver_all plan (device ∷ devices)
    pure (pending, ids)

  unfoldable pub deliver : Plan → Action (DeliveryStatus × List ℕ)
  unfolding deliver_to deliver_none list_enabled_devices
  deliver plan =
      if is_suppressed plan.status
      then deliver_none plan
      else gets (list_enabled_devices owner) >>= deliver_to plan

module _ (k : Clocks) (parse_uuid : String → Option ℕ) where
  -- `UUID(str(raw))` raises on a text that is no UUID.
  abbrev parsed : Option ℕ → Result (Option ℕ)
  parsed none = err (value_error "badly formed hexadecimal UUID string")
  parsed (some id) = ok (some id)

  unfoldable pub payload_resource : OutboxJob → Result (Option ℕ)
  payload_resource job =
      let raw = text_or_empty (member "resource_id" job.payload) in
      if str_eq raw "" then ok (some job.aggregate_id) else parsed (parse_uuid raw)

  abbrev zone_or_default : Option NotificationPrefs → String
  zone_or_default none = "Asia/Shanghai"
  zone_or_default (some prefs) = prefs.timezone

  abbrev pub planned :
      OutboxJob → ℕ → String → DeliveryStatus → List ℕ → Bool → NotificationPlanResult
  planned job owner event_type status ids completed = record {
    job_id = job.id;
    owner_id = owner;
    event_type = event_type;
    status = status;
    delivery_ids = ids;
    fenced = not completed;
  }

  -- The end of the job, after what it delivers.
  unfoldable pub finish_plan :
      OutboxJob → ℕ → ℕ → String → DeliveryStatus × List ℕ → Action NotificationPlanResult
  finish_plan job owner now event_type (status, ids) = do
    completed ← on_outbox (complete_outbox_job job.id job.locked_by now)
    pure (planned job owner event_type status ids completed)

  unfoldable pub fail_missing_owner : OutboxJob → ℕ → Action NotificationPlanResult
  fail_missing_owner job now = do
    failed ← on_outbox (fail_outbox_job job.id job.locked_by now "MISSING_OWNER")
    pure (record {
      job_id = job.id;
      owner_id = 0;
      event_type = "unknown";
      status = dead;
      delivery_ids = [];
      fenced = not failed;
    })

  -- The checks of a job: its type, its resource and its alert.
  unfoldable pub job_type : OutboxJob → Result (String × Option ℕ)
  unfolding payload_type payload_resource fixed_alert_body
  job_type job = bind_result (payload_type job) (λ event_type.
      bind_result (payload_resource job) (λ resource.
        bind_result (fixed_alert_body event_type) (λ alert. ok (event_type, resource))))

  unfoldable pub deliver_plan :
      OutboxJob → ℕ → ℕ → String → Option ℕ → Plan → Action NotificationPlanResult
  unfolding deliver finish_plan
  deliver_plan job owner now event_type resource plan = do
    delivered ← deliver owner event_type resource plan
    finish_plan job owner now event_type delivered

  unfoldable pub plan_keyed :
      OutboxJob
      → ℕ
      → ℕ
      → String
      → Option ℕ
      → ℕ
      → Option NotificationPrefs
      → PushKey
      → Action NotificationPlanResult
  unfolding make_plan deliver_plan
  plan_keyed job owner now event_type resource local_day prefs dedupe = do
    plan ← make_plan k owner now event_type resource local_day dedupe prefs
    deliver_plan job owner now event_type resource plan

  unfoldable pub plan_for : OutboxJob → ℕ → ℕ → String × Option ℕ → Action NotificationPlanResult
  unfolding load_prefs notification_local_date push_dedupe_key plan_keyed
  plan_for job owner now (event_type, resource) = do
    prefs ← gets (load_prefs owner)
    let local_day = notification_local_date k now (zone_or_default prefs)
    dedupe ← lift (push_dedupe_key event_type resource owner local_day)
    plan_keyed job owner now event_type resource local_day prefs dedupe

  unfoldable pub plan_notification_job : OutboxJob → Moment → Action NotificationPlanResult
  unfolding assert_writable_transaction fail_missing_owner job_type plan_for require_aware
  plan_notification_job job moment = do
    now ← lift (require_aware moment)
    assert_writable_transaction
    elim job.owner_id [
      | none ↦ fail_missing_owner job now
      | some owner ↦ lift (job_type job) >>= plan_for job owner now
    ]
