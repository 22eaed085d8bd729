-- ===== src/Pact/Calendar.antt =====
-- The days of a pact in app/domain/pact.py, with `local_date` of app/domain/bootstrap.py.
use kelin_server.Prelude.{
  ℕ, ◌+◌, ◌-◌, ◌*◌, Bool, true, ◌&&◌, not, String, Option, none, some, str_eq, leb, if◌then◌else◌,
  Result, ok, bind_result,
}
use kelin_server.Clock.{Moment, require_aware, instant}
use kelin_server.Quota.Catalog.{Zones, coerce_timezone, default_timezone}

-- `timedelta(days=7)`
abbrev pub pact_duration : ℕ
pact_duration = 7 * 86400

module _ (z : Zones) where
  unfoldable pub local_date : Moment → String → Result ℕ
  unfolding require_aware
  local_date now timezone_name =
      bind_result (require_aware now) (λ t.
        ok (z.local_date (if z.known timezone_name then timezone_name else default_timezone) t))

  -- The start, the end and the first local date of a pact.
  unfoldable pub week_window : Moment → String → Result (ℕ × ℕ × ℕ)
  unfolding local_date coerce_timezone
  week_window now timezone_name =
      bind_result (local_date now (coerce_timezone z (some timezone_name)))
        (λ week_start. ok (instant now, instant now + pact_duration, week_start))

  unfoldable pub session_date_for : Moment → String → Result ℕ
  unfolding local_date coerce_timezone
  session_date_for now timezone_name = local_date now (coerce_timezone z (some timezone_name))

-- The day of a pact that a date is, from 1 to 7.
unfoldable pub session_day_index : ℕ → ℕ → Option ℕ
session_day_index week_start session_date =
    if leb week_start session_date && leb (session_date - week_start + 1) 7
    then some (session_date - week_start + 1)
    else none

unfoldable pub pact_day_is_closed : ℕ → ℕ → String → Option ℕ → Bool
pact_day_is_closed now ends_at status day_index =
    if not (str_eq status "active")
    then true
    else elim day_index [ none ↦ true | some index ↦ leb ends_at now ]
