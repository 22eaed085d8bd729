-- ===== src/Quota/Tests.antt =====
-- Runs of the quota code, and the theorems about it at concrete inputs.
use kelin_server.Prelude.{
  ℕ, ◌*◌, ◌/◌, ◌≡◌, refl, false, none, some, ok, err, quota_exceeded, [], ◌∷◌, find?, sum_by, ◌+◌,
  arith, str_eq, strip_string,
}
use kelin_server.Clock.{aware, require_aware}
use kelin_server.Quota.Catalog.{
  Zones, require_capability, daily_limit, coerce_timezone, local_usage_date, usage_reset_at,
}
use kelin_server.Quota.Store.{
  Window, held, UsageRow, ReservationRow, QuotaSnapshot, QuotaReservation, Session, is_active,
  same_window, same_source,
}
use kelin_server.Quota.Usage.{
  window_at, assert_writable_transaction, owner_timezone, resolve_usage_window, active_window,
  limit_or_default, ensure_usage_row, apply_reserved_delta, update_usage, load_usage, snapshot_of,
}
use kelin_server.Quota.Holds.{marks, load_reservation, insert_reservation, mark_reservation}
use kelin_server.Quota.Service.{
  window_of, consume, commit_quota, release_quota, exceeded, zone_or_preference,
}
use kelin_server.Quota.Reserve.{
  reserve_quota, reserve_known, reuse, or_open, open_hold, create_hold, insert_or_reopen,
  hold_created, count_hold, counted_or_refused, refuse_hold,
}
use kelin_server.Quota.Ledger.{IsLedger, reserved_in, held_in}
use kelin_server.Quota.Ledger.Reserving.{reserve_quota-IsLedger}
use kelin_server.Quota.Ledger.Consuming.{consume-IsLedger}
use kelin_server.Quota.Guarantees.{
  IsLive, commit_quota-IsLedger, release_quota-IsLedger, commit_quota_stale,
}

-- One zone, whose days begin at multiples of 86400 seconds.
abbrev utc : Zones
utc = record {
  known = λ name. str_eq name "Asia/Shanghai";
  local_date = λ name t. t / 86400;
  midnight = λ name d. d * 86400;
}

abbrev chat : Window
chat = window_at 7 0 "chat"

abbrev chat_row : ℕ → ℕ → UsageRow
chat_row used reserved = record {
  window = chat;
  timezone = "Asia/Shanghai";
  used = used;
  reserved = reserved;
  limit_value = 4;
  version = 1;
}

abbrev first_hold : ReservationRow
first_hold = record {
  id = 0;
  window = chat;
  timezone = "Asia/Shanghai";
  source_id = 5;
  amount = 2;
  expires_at = 120;
  status = held;
}

abbrev busy : Session
busy = record {
  usage = chat_row 1 2 ∷ [];
  reservations = first_hold ∷ [];
  preferences = [];
  next_id = 1;
  read_only = false;
}

busy-IsLedger : IsLedger busy
unfolding require_capability same_window same_source
busy-IsLedger = record {
  one_window = λ w. ground arith;
  one_source = λ o c i. ground arith;
  one_id = λ i. ground arith;
  stored = ((refl, omega arith, omega arith), tt);
  within = omega arith;
  counted = λ w. ground arith;
}

abbrev snapshot : QuotaSnapshot
snapshot = record {
  capability = "chat";
  used = 1;
  reserved = 2;
  limit = 4;
  usage_date = 0;
  timezone = "Asia/Shanghai";
  version = 1;
}

abbrev hold_object : ℕ → ℕ → QuotaReservation
hold_object id amount = record {
  id = id;
  source_id = 5;
  capability = "chat";
  amount = amount;
  usage_date = 0;
  timezone = "Asia/Shanghai";
  expires_at = 120;
  status = held;
  snapshot = snapshot;
}

first_hold-IsLive : IsLive utc 7 (hold_object 0 2) busy
unfolding marks
first_hold-IsLive = record {
  row = first_hold;
  found = refl;
  id = refl;
  window = refl;
  amount = refl;
  active = refl;
  status = refl;
}

commit_quota-IsLedger_example :
    let (result, s') = commit_quota utc 7 (hold_object 0 2) (aware 60) busy in
    (q : QuotaSnapshot) × (result ≡ ok q)
    × IsLedger s'
    × (find? (marks 0 is_active) s'.reservations ≡ none)
commit_quota-IsLedger_example =
    commit_quota-IsLedger utc 7 (hold_object 0 2) 60 busy busy-IsLedger refl first_hold-IsLive

release_quota-IsLedger_example :
    let (result, s') = release_quota utc 7 (hold_object 0 2) (aware 60) busy in
    (q : QuotaSnapshot) × (result ≡ ok (some q))
    × IsLedger s'
    × (find? (marks 0 is_active) s'.reservations ≡ none)
release_quota-IsLedger_example =
    release_quota-IsLedger utc 7 (hold_object 0 2) 60 busy busy-IsLedger refl first_hold-IsLive

-- A second source: its reservation of 2 is over the limit, and is refused.
reserve_quota-IsLedger_example :
    IsLedger (reserve_quota utc 7 "chat" 6 (aware 60) none 2 none busy).1
reserve_quota-IsLedger_example =
    reserve_quota-IsLedger utc 7 "chat" 6 (aware 60) none 2 none busy busy-IsLedger

consume-IsLedger_example : IsLedger (consume utc 7 "chat" (aware 60) none 1 none busy).1
consume-IsLedger_example = consume-IsLedger utc 7 "chat" (aware 60) none 1 none busy busy-IsLedger

-- The reservation with id 3 is gone; its commit takes 2 from the first hold.
commit_quota_stale_example :
    let w = window_of utc 7 (hold_object 3 2) in
    let s' = (commit_quota utc 7 (hold_object 3 2) (aware 500) busy).1 in
    sum_by (reserved_in w) s'.usage + 2 ≡ sum_by (held_in w) s'.reservations
unfolding require_capability same_window marks
commit_quota_stale_example =
    commit_quota_stale utc 7 (hold_object 3 2) 500 busy (chat_row 1 2) busy-IsLedger refl refl refl
      (omega arith) refl refl

reserve_over_limit :
    (reserve_quota utc 7 "chat" 6 (aware 60) none 2 none busy).0 ≡ err (quota_exceeded "chat" 86400)
unfolding reserve_quota require_aware require_capability assert_writable_transaction reserve_known
    zone_or_preference owner_timezone coerce_timezone load_reservation same_source reuse or_open
    open_hold resolve_usage_window active_window limit_or_default daily_limit create_hold
    ensure_usage_row same_window insert_or_reopen insert_reservation hold_created count_hold
    apply_reserved_delta update_usage counted_or_refused mark_reservation marks refuse_hold
    load_usage snapshot_of exceeded usage_reset_at local_usage_date strip_string
reserve_over_limit = refl
