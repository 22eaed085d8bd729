-- ===== src/Notice/Planned.antt =====
-- The planner keeps the daily cap.
use kelin_server.Outbox.Procedures
use kelin_server.Clock.{Moment, aware, naive, require_aware}
use kelin_server.Prelude.{
  ℕ, false, String, List, [], ◌∷◌, Option, none, some, ◌≡◌, refl, sym, subst, inl, inr, Bool-cases,
  pure, lift, ◌>>=◌, cases_run, after_pure,
}
use kelin_server.Quota.Catalog.{Zones}
use kelin_server.Outbox.Repository.{OutboxJob}
use kelin_server.Notice.Rules.{Clocks, zone_of, PushKey, notification_local_date, push_dedupe_key}
use kelin_server.Notice.Store.{
  assert_writable_transaction, DeliveryStatus, pending, suppressed, Session, NotificationPrefs,
  load_prefs, list_enabled_devices,
}
use kelin_server.Notice.Deliveries.{upsert_delivery}
use kelin_server.Notice.Plan.{Plan, make_plan}
use kelin_server.Notice.Planner.{
  planned, deliver_plan, plan_keyed, job_type, is_suppressed, deliver, deliver_to, deliver_none,
  deliver_all, plan_for, plan_notification_job, finish_plan, on_outbox,
}
use kelin_server.Notice.Room.{HasRoom, make_plan-IsRoomy}
use kelin_server.Notice.Cap.{
  AddsOnly, IsCapped, upsert_delivery-AddsOnly, AddsOnly-refl, AddsOnly-trans, AddsOnly-IsCapped,
}

module _ (z : Zones) (owner : ℕ) (timezone_name : String) where
  module _ (event_type : String) (resource : Option ℕ) (plan : Plan) where
    deliver_all-AddsOnly :
        (devices : List ℕ) (s : Session)
        → AddsOnly z owner timezone_name plan.dedupe plan.when pending s.deliveries
            (deliver_all owner event_type resource plan devices s).1.deliveries
    unfolding deliver_all
    deliver_all-AddsOnly [] s =
        AddsOnly-refl z owner timezone_name plan.dedupe plan.when pending s.deliveries
    deliver_all-AddsOnly (device ∷ devices) s =
        let s' =
          (upsert_delivery owner (some device) event_type resource plan.dedupe plan.when pending
            s).1 in
        let first =
          upsert_delivery-AddsOnly z owner timezone_name plan.dedupe plan.when pending owner
            (some device) event_type resource s in
        cases_run
          (λ r.
            AddsOnly z owner timezone_name plan.dedupe plan.when pending s.deliveries
              r.1.deliveries)
          (upsert_delivery owner (some device) event_type resource plan.dedupe plan.when pending)
          (λ id. deliver_all owner event_type resource plan devices >>= (λ ids. pure (id ∷ ids))) s
          (λ e h. first)
          (λ id h.
            subst
              (λ (t : Session).
                AddsOnly z owner timezone_name plan.dedupe plan.when pending s.deliveries
                  t.deliveries)
              (sym (
                after_pure (deliver_all owner event_type resource plan devices) (λ ids. id ∷ ids)
                  s'))
              (AddsOnly-trans z owner timezone_name plan.dedupe plan.when pending s.deliveries
                s'.deliveries _ first (deliver_all-AddsOnly devices s')))

    deliver_none-IsCapped :
        (s : Session)
        → IsCapped z owner timezone_name s.deliveries
        → IsCapped z owner timezone_name
            (deliver_none owner event_type resource plan s).1.deliveries
    unfolding deliver_none
    deliver_none-IsCapped s capped =
        AddsOnly-IsCapped z owner timezone_name plan.dedupe plan.when suppressed s.deliveries _
          (upsert_delivery-AddsOnly z owner timezone_name plan.dedupe plan.when suppressed owner
            none event_type resource s)
          (λ e. cc) capped

    deliver_to-IsCapped :
        (devices : List ℕ) (s : Session)
        → is_suppressed plan.status ≡ false
        → HasRoom z owner timezone_name plan s
        → IsCapped z owner timezone_name s.deliveries
        → IsCapped z owner timezone_name
            (deliver_to owner event_type resource plan devices s).1.deliveries
    unfolding deliver_to
    deliver_to-IsCapped [] s on room capped = deliver_none-IsCapped s capped
    deliver_to-IsCapped (device ∷ devices) s on room capped =
        AddsOnly-IsCapped z owner timezone_name plan.dedupe plan.when pending s.deliveries _
          (subst
            (λ (t : Session).
              AddsOnly z owner timezone_name plan.dedupe plan.when pending s.deliveries
                t.deliveries)
            (sym (
              after_pure (deliver_all owner event_type resource plan (device ∷ devices))
                (λ ids. (pending, ids)) s))
            (deliver_all-AddsOnly (device ∷ devices) s))
          (λ active. room on) capped

    deliver-IsCapped :
        (s : Session)
        → HasRoom z owner timezone_name plan s
        → IsCapped z owner timezone_name s.deliveries
        → IsCapped z owner timezone_name (deliver owner event_type resource plan s).1.deliveries
    unfolding deliver
    deliver-IsCapped s room capped = elim (Bool-cases (is_suppressed plan.status)) [
      | inl off ↦ rw off (deliver_none-IsCapped s capped)
      | inr on ↦ rw on (deliver_to-IsCapped (list_enabled_devices owner s) s on room capped)
    ]

module _ (k : Clocks) (parse_uuid : String → Option ℕ) (owner : ℕ) (prefs : NotificationPrefs)
    (named : zone_of k prefs.timezone ≡ prefs.timezone) where
  abbrev IsKept : Session → Type 0
  IsKept s = IsCapped k.zones owner prefs.timezone s.deliveries

  -- The end of a job leaves the deliveries.
  finish_plan-deliveries :
      (job : OutboxJob) (now : ℕ) (event_type : String) (delivered : DeliveryStatus × List ℕ)
      (s : Session)
      → (finish_plan k parse_uuid job owner now event_type delivered s).1.deliveries ≡ s.deliveries
  unfolding finish_plan
  finish_plan-deliveries job now event_type (status, ids) s =
      cases_run (λ r. r.1.deliveries ≡ s.deliveries)
        (on_outbox (Procedures.complete_outbox_job job.id job.locked_by now))
        (λ completed. pure (planned k parse_uuid job owner event_type status ids completed)) s
        (λ e h. refl) (λ completed h. refl)

  deliver_plan-IsKept :
      (job : OutboxJob) (now : ℕ) (event_type : String) (resource : Option ℕ) (plan : Plan)
      (s : Session)
      → HasRoom k.zones owner prefs.timezone plan s
      → IsKept s
      → IsKept (deliver_plan k parse_uuid job owner now event_type resource plan s).1
  unfolding deliver_plan
  deliver_plan-IsKept job now event_type resource plan s room kept =
      let sent =
        deliver-IsCapped k.zones owner prefs.timezone event_type resource plan s room kept in
      cases_run (λ r. IsKept r.1) (deliver owner event_type resource plan)
        (finish_plan k parse_uuid job owner now event_type) s (λ e h. sent)
        (λ delivered h.
          subst (IsCapped k.zones owner prefs.timezone)
            (sym (
              finish_plan-deliveries job now event_type delivered
                (deliver owner event_type resource plan s).1))
            sent)

  plan_keyed-IsKept :
      (job : OutboxJob) (now : ℕ) (event_type : String) (resource : Option ℕ) (dedupe : PushKey)
      (s : Session)
      → IsKept s
      → IsKept
          (plan_keyed k parse_uuid job owner now event_type resource
            (notification_local_date k now prefs.timezone)
            (some prefs)
            dedupe
            s).1
  unfolding plan_keyed
  plan_keyed-IsKept job now event_type resource dedupe s kept =
      let local_day = notification_local_date k now prefs.timezone in
      let (same, roomy) =
        make_plan-IsRoomy k owner now event_type resource dedupe prefs named s local_day refl in
      cases_run (λ r. IsKept r.1)
        (make_plan k owner now event_type resource local_day dedupe (some prefs))
        (deliver_plan k parse_uuid job owner now event_type resource) s
        (λ e h. subst IsKept (sym same) kept)
        (λ plan h.
          subst (λ t. IsKept (deliver_plan k parse_uuid job owner now event_type resource plan t).1)
            (sym same) (deliver_plan-IsKept job now event_type resource plan s (roomy plan h) kept))

  plan_for-IsKept :
      (job : OutboxJob) (now : ℕ) (kind : String × Option ℕ) (s : Session)
      → load_prefs owner s ≡ some prefs
      → IsKept s
      → IsKept (plan_for k parse_uuid job owner now kind s).1
  unfolding plan_for
  plan_for-IsKept job now (event_type, resource) s found kept =
      rw (plan_for, found)
        (cases_run (λ r. IsKept r.1)
          (lift (
            push_dedupe_key event_type resource owner
              (notification_local_date k now prefs.timezone)))
          (plan_keyed k parse_uuid job owner now event_type resource
            (notification_local_date k now prefs.timezone) (some prefs))
          s (λ e h. kept) (λ dedupe h. plan_keyed-IsKept job now event_type resource dedupe s kept))

  -- Where the owner's time zone is one that coerce_timezone keeps, planning a job keeps the daily
  -- cap, whether it returns or raises: if no local date of the owner's zone has more than two
  -- active notifications of the owner before, none has after.
  pub plan_notification_job-IsCapped :
      (job : OutboxJob) (moment : Moment) (s : Session)
      → job.owner_id ≡ some owner
      → load_prefs owner s ≡ some prefs
      → IsCapped k.zones owner prefs.timezone s.deliveries
      → IsCapped k.zones owner prefs.timezone
          (plan_notification_job k parse_uuid job moment s).1.deliveries
  unfolding plan_notification_job require_aware assert_writable_transaction
  plan_notification_job-IsCapped job (naive now) s owned found kept = kept
  plan_notification_job-IsCapped job (aware now) s owned found kept =
      elim (Bool-cases s.outbox.read_only) [
        | inl locked ↦ rw (plan_notification_job, locked) kept
        | inr writable ↦
            rw (plan_notification_job, writable, owned)
              (cases_run (λ r. IsKept r.1) (lift (job_type k parse_uuid job))
                (plan_for k parse_uuid job owner now) s (λ e h. kept)
                (λ kind h. plan_for-IsKept job now kind s found kept))
      ]
