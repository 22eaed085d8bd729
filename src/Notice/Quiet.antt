-- ===== src/Notice/Quiet.antt =====
-- Quiet hours.
use kelin_server.Prelude.{ℕ, ◌≡◌, refl, inl, inr, false, String, ◌+◌, Bool-cases, arith}
use kelin_server.Notice.Rules.{Clocks, zone_of, in_dnd, next_dnd_end, scheduled_for, local_clock}

module _ (k : Clocks) (timezone_name : String) (dnd_start dnd_end : ℕ) where
  -- At its end the quiet hours are over.
  over_at_end :
      (t : ℕ)
      → k.local_time (zone_of k timezone_name) t ≡ dnd_end
      → in_dnd k t timezone_name dnd_start dnd_end ≡ false
  unfolding in_dnd local_clock
  over_at_end t e = rw e (ground arith)

  next_dnd_end-time :
      (now : ℕ)
      → ((date : ℕ)
          → k.local_time
              (zone_of k timezone_name)
              (k.combine (zone_of k timezone_name) date dnd_end)
            ≡ dnd_end)
      → k.local_time (zone_of k timezone_name) (next_dnd_end k now timezone_name dnd_start dnd_end)
        ≡ dnd_end
  unfolding next_dnd_end local_clock
  next_dnd_end-time now times =
      let date = k.zones.local_date (zone_of k timezone_name) now in
      let today = times date in let tomorrow = times (date + 1) in ground (arith, today, tomorrow)

-- A notification is never scheduled in the quiet hours, where the end of the quiet hours is a local time of its zone on every date.
pub scheduled_for-in_dnd :
    (k : Clocks) (now : ℕ) (timezone_name : String) (dnd_start dnd_end : ℕ)
    → ((date : ℕ)
        → k.local_time (zone_of k timezone_name) (k.combine (zone_of k timezone_name) date dnd_end)
          ≡ dnd_end)
    → in_dnd k (scheduled_for k now timezone_name dnd_start dnd_end) timezone_name dnd_start dnd_end
      ≡ false
unfolding scheduled_for
scheduled_for-in_dnd k now timezone_name dnd_start dnd_end times =
    elim (Bool-cases (in_dnd k now timezone_name dnd_start dnd_end)) [
      | inl quiet ↦ rw quiet (
          over_at_end k timezone_name dnd_start dnd_end
            (next_dnd_end k now timezone_name dnd_start dnd_end)
            (next_dnd_end-time k timezone_name dnd_start dnd_end now times))
      | inr loud ↦ rw (loud, loud) refl
    ]
