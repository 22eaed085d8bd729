-- ===== src/Notice/Room.antt =====
-- A plan is made for a day that has room for it.
use kelin_server.Prelude.{
  ok_inj, pure, if_run, ℕ, ◌≤◌, Bool, true, false, not, ◌||◌, String, Option, some, ◌≡◌, refl, sym,
  subst, ◌∙◌, inl, inr, length, Bool-cases, Option-cases, ==_iff, arith, ◌==◌, Result, Error, ok,
  err, lift, bind_result, ◌>>=◌, cases_run, str_eq, leb,
}
use kelin_server.Prelude.Int.{pos, sub_ℕ, leb_ℤ}
use kelin_server.Quota.Catalog.{Zones, local_usage_date}
use kelin_server.Notice.Rules.{
  Clocks, zone_of, PushKey, notification_local_date, push_dedupe_key, is_server_local_only, in_dnd,
  scheduled_for, care_is_eligible,
}
use kelin_server.Notice.Store.{pending, suppressed, Session, Action, NotificationPrefs}
use kelin_server.Notice.Deliveries.{distinct, count_active_events}
use kelin_server.Notice.Plan.{
  Plan, care_eligible, make_plan, plan_with, plan_counted, plan_quiet, plan_later,
}
use kelin_server.Notice.Planner.{is_suppressed}
use kelin_server.Notice.Cap.{keys_on}

module _ (z : Zones) (owner : ℕ) (timezone_name : String) where
  -- The day of a plan has room for it, where it is not suppressed.
  abbrev pub HasRoom : Plan → Session → Type 0
  HasRoom plan s =
      is_suppressed plan.status ≡ false
      → length (
          distinct
            (keys_on z owner timezone_name (z.local_date timezone_name plan.when) s.deliveries))
        ≤ 1

module _ (k : Clocks) (owner now : ℕ) (event_type : String) (resource : Option ℕ) (dedupe : PushKey)
    (prefs : NotificationPrefs) (named : zone_of k prefs.timezone ≡ prefs.timezone) where
  -- The day of an instant, as the planner and as the database have it.
  notification_local_date_lem :
      (t : ℕ) → notification_local_date k t prefs.timezone ≡ k.zones.local_date prefs.timezone t
  unfolding notification_local_date local_usage_date
  notification_local_date_lem t = rw (named, local_usage_date, named) refl

  used : Session → ℕ → ℕ
  used s day = length (distinct (keys_on k.zones owner prefs.timezone day s.deliveries))

  -- A plan leaves the session, and the day it is for has room.
  abbrev pub IsRoomy : Session → Result Plan × Session → Type 0
  IsRoomy s r =
      (r.1 ≡ s) × ((plan : Plan) → r.0 ≡ ok plan → HasRoom k.zones owner prefs.timezone plan s)

  suppressed-IsRoomy :
      (s : Session) (when : ℕ) (key : PushKey)
      → IsRoomy s (ok (record { status = suppressed; when = when; dedupe = key }), s)
  suppressed-IsRoomy s when key = (
    refl,
    λ plan e on.
        absurd (subst (λ (p : Plan). is_suppressed p.status ≡ false → ⊥) (ok_inj e) (λ h. cc) on),
  )

  pending-IsRoomy :
      (s : Session) (when day : ℕ) (key : PushKey)
      → notification_local_date k when prefs.timezone ≡ day
      → used s day ≤ 1
      → IsRoomy s (ok (record { status = pending; when = when; dedupe = key }), s)
  unfolding used
  pending-IsRoomy s when day key same room = (
    refl,
    λ plan e on.
        subst (λ (p : Plan). HasRoom k.zones owner prefs.timezone p s) (ok_inj e)
          (λ h.
            subst (λ d. length (distinct (keys_on k.zones owner prefs.timezone d s.deliveries)) ≤ 1)
              (sym same ∙ notification_local_date_lem when) room)
          on,
  )

  error-IsRoomy : (s : Session) (e : Error) → IsRoomy s (err e, s)
  error-IsRoomy s e = (refl, λ plan h. cc)

  keyed-IsRoomy :
      (s : Session) (when day : ℕ) (r : Result PushKey)
      → notification_local_date k when prefs.timezone ≡ day
      → used s day ≤ 1
      → IsRoomy s
          (bind_result r (λ key. ok (record { status = pending; when = when; dedupe = key })), s)
  keyed-IsRoomy s when day (ok key) same room = pending-IsRoomy s when day key same room
  keyed-IsRoomy s when day (err e) same room = error-IsRoomy s e

  plan_later-IsRoomy :
      (s : Session) (local_day when later_day : ℕ)
      → notification_local_date k when prefs.timezone ≡ later_day
      → IsRoomy s (
        plan_later k owner now event_type resource local_day dedupe when later_day
            (used s later_day),
        s,
      )
  unfolding plan_later
  plan_later-IsRoomy s local_day when later_day same =
      elim (Bool-cases (leb 2 (used s later_day))) [
        | inl full ↦ rw full (suppressed-IsRoomy s when dedupe)
        | inr free ↦ rw free (
            keyed-IsRoomy s when later_day (push_dedupe_key event_type resource owner later_day)
              same (ground arith))
      ]

  -- A count is read in the session.
  count_active_events-used :
      (s : Session) (day n : ℕ)
      → (count_active_events k.zones owner day prefs.timezone s).0 ≡ ok n
      → used s day ≡ n
  unfolding count_active_events used
  count_active_events-used s day n e = elim (Bool-cases (k.zones.known prefs.timezone)) [
    | inl known ↦ ok_inj (rw known at e)
    | inr unknown ↦ ground arith
  ]

  counted-IsRoomy :
      (s : Session) (day : ℕ) (f : ℕ → Action Plan)
      → IsRoomy s (f (used s day) s)
      → IsRoomy s ((count_active_events k.zones owner day prefs.timezone >>= f) s)
  unfolding count_active_events
  counted-IsRoomy s day f roomy =
      cases_run (IsRoomy s) (count_active_events k.zones owner day prefs.timezone) f s
        (λ e h. error-IsRoomy s e)
        (λ n h. subst (λ m. IsRoomy s (f m s)) (count_active_events-used s day n h) roomy)

  plan_quiet-IsRoomy :
      (s : Session) (local_day : ℕ)
      → used s local_day ≤ 1
      → IsRoomy s (plan_quiet k owner now event_type resource local_day dedupe prefs s)
  unfolding plan_quiet
  plan_quiet-IsRoomy s local_day room =
      let when = scheduled_for k now prefs.timezone prefs.dnd_start prefs.dnd_end in
      let later_day = notification_local_date k when prefs.timezone in
      elim (Bool-cases (later_day == local_day)) [
        | inl today ↦
            rw today
              (pending-IsRoomy s when local_day dedupe ((==_iff later_day local_day).0 today) room)
        | inr later ↦ rw later (
            counted-IsRoomy s later_day
              (λ n.
                lift (plan_later k owner now event_type resource local_day dedupe when later_day n))
              (plan_later-IsRoomy s local_day when later_day refl))
      ]

  -- A care notification is eligible only where the day has room.
  care_eligible-room :
      (quiet : Bool) (n : ℕ) → care_eligible k prefs now quiet (sub_ℕ 2 n) ≡ true → n ≤ 1
  unfolding care_eligible care_is_eligible
  care_eligible-room quiet n h = elim (Option-cases prefs.spirit_status) [
    | inl e ↦ ground arith
    | inr (status, e) ↦ elim (Option-cases prefs.last_interact_at) [
      | inl e' ↦ ground arith
      | inr (last, e') ↦ ground arith
    ]
  ]

  plan_counted-IsRoomy :
      (s : Session) (local_day : ℕ)
      → notification_local_date k now prefs.timezone ≡ local_day
      → IsRoomy s
          (plan_counted k owner now event_type resource local_day dedupe prefs (used s local_day) s)
  unfolding plan_counted
  plan_counted-IsRoomy s local_day same =
      let quiet = in_dnd k now prefs.timezone prefs.dnd_start prefs.dnd_end in
      let left = sub_ℕ 2 (used s local_day) in
      elim (Bool-cases (str_eq event_type "care")) [
        | inl care ↦ elim (Bool-cases (care_eligible k prefs now quiet left)) [
          | inl fit ↦
              rw (care, fit)
                (pending-IsRoomy s now local_day dedupe same
                  (care_eligible-room quiet (used s local_day) fit))
          | inr unfit ↦ rw (care, unfit) (suppressed-IsRoomy s now dedupe)
        ]
        | inr other ↦ elim (Bool-cases (leb_ℤ left (pos 0))) [
          | inl full ↦ rw (other, full) (suppressed-IsRoomy s now dedupe)
          | inr free ↦
              rw (other, free)
                (if_run (IsRoomy s) quiet
                  (plan_quiet k owner now event_type resource local_day dedupe prefs)
                  (pure (record { status = pending; when = now; dedupe = dedupe })) s
                  (λ hushed. plan_quiet-IsRoomy s local_day (ground arith))
                  (λ loud. pending-IsRoomy s now local_day dedupe same (ground arith)))
        ]
      ]

  pub make_plan-IsRoomy :
      (s : Session) (local_day : ℕ)
      → notification_local_date k now prefs.timezone ≡ local_day
      → IsRoomy s (make_plan k owner now event_type resource local_day dedupe (some prefs) s)
  unfolding make_plan plan_with
  make_plan-IsRoomy s local_day same =
      elim (Bool-cases (is_server_local_only event_type || not prefs.push_on)) [
        | inl off ↦ rw off (suppressed-IsRoomy s now dedupe)
        | inr on ↦ rw on (
            counted-IsRoomy s local_day
              (plan_counted k owner now event_type resource local_day dedupe prefs)
              (plan_counted-IsRoomy s local_day same))
      ]
