-- ===== src/Quota/Reserve.antt =====
-- `reserve` of app/services/quota.py, in the order of its statements.
use kelin_server.Prelude.{
  ℕ, ◌+◌, String, ◌&&◌, ◌||◌, Option, none, some, ltb, if◌then◌else◌, runtime_error, pure, raise,
  lift, ◌>>=◌, ◌>>◌,
}
use kelin_server.Clock.{Moment, require_aware}
use kelin_server.Quota.Catalog.{Zones, reservation_ttl, require_capability}
use kelin_server.Quota.Store.{
  Window, held, committed, released, QuotaSnapshot, QuotaReservation, Action, is_status, is_active,
}
use kelin_server.Quota.Usage.{
  reserve, assert_writable_transaction, window_at, resolve_usage_window, ensure_usage_row,
  load_usage, apply_reserved_delta, limit_or_default,
}
use kelin_server.Quota.Holds.{
  Loaded, insert_reservation, reopen_reservation, load_reservation, mark_reservation,
}
use kelin_server.Quota.Service.{
  exceeded, empty_snapshot, or_empty, zone_or_preference, usage_of, give_back,
}

module _ (z : Zones) where
  -- The reservation that a loaded row stands for.
  abbrev pub reservation_of : String → ℕ → Loaded → QuotaSnapshot → QuotaReservation
  reservation_of capability source_id row snapshot = record {
    id = row.id;
    source_id = source_id;
    capability = capability;
    amount = row.amount;
    usage_date = row.usage_date;
    timezone = row.timezone;
    expires_at = row.expires_at;
    status = row.status;
    snapshot = snapshot;
  }

  unfoldable pub reuse_row :
      ℕ → String → ℕ → ℕ → Loaded → QuotaSnapshot → Action (Option QuotaReservation)
  reuse_row owner capability source_id now row snapshot =
      if is_status committed row.status || is_status held row.status && ltb now row.expires_at
      then pure (some (reservation_of capability source_id row snapshot))
      else if is_active row.status
      then (do
        give_back z (window_at owner row.usage_date capability) row.amount row.id
            (is_status row.status)
        pure none)
      else pure none

  -- The branch of `reserve` on an existing row: it is handed back while it is committed or held and
  -- not expired; an expired or expiring one is given back, and `none` says to go on.
  unfoldable pub reuse : ℕ → String → ℕ → ℕ → Option Loaded → Action (Option QuotaReservation)
  reuse owner capability source_id now none = pure none
  reuse owner capability source_id now (some row) = do
    snapshot ← usage_of z (window_at owner row.usage_date capability)
    reuse_row owner capability source_id now row snapshot

  unfoldable pub refuse_hold : ℕ → String → ℕ → ℕ × String → Action QuotaReservation
  refuse_hold owner capability limit found = do
    current ← load_usage z (window_at owner found.0 capability)
    raise (exceeded z (or_empty z current (empty_snapshot z capability limit found)))

  -- The end of `reserve`: the new hold is counted, or withdrawn and refused.
  unfoldable pub counted_or_refused :
      ℕ → String → ℕ → ℕ → ℕ → ℕ × String → ℕ → ℕ → Option QuotaSnapshot → Action QuotaReservation
  counted_or_refused owner capability source_id amount limit found expires_at id (some counted) =
      pure (record {
        id = id;
        source_id = source_id;
        capability = capability;
        amount = amount;
        usage_date = found.0;
        timezone = found.1;
        expires_at = expires_at;
        status = held;
        snapshot = counted;
      })
  counted_or_refused owner capability source_id amount limit found expires_at id none = do
    mark_reservation id (is_status held) released
    refuse_hold owner capability limit found

  unfoldable pub count_hold : ℕ → String → ℕ → ℕ → ℕ → ℕ × String → ℕ → ℕ → Action QuotaReservation
  count_hold owner capability source_id amount limit found expires_at id = do
    snapshot ← apply_reserved_delta z (window_at owner found.0 capability) amount reserve
    counted_or_refused owner capability source_id amount limit found expires_at id snapshot

  -- Neither the INSERT nor the UPDATE gave an id: the source is held by another call.
  unfoldable pub join_holder : ℕ → String → ℕ → Option Loaded → Action QuotaReservation
  join_holder owner capability source_id none =
      raise (runtime_error "quota reservation could not be created")
  join_holder owner capability source_id (some row) =
      if is_status held row.status || is_status committed row.status
      then (do
        snapshot ← usage_of z (window_at owner row.usage_date capability)
        pure (reservation_of capability source_id row snapshot))
      else raise (runtime_error "quota reservation could not be created")

  unfoldable pub or_reopen : Window → String → ℕ → ℕ → ℕ → Option ℕ → Action (Option ℕ)
  or_reopen w timezone source_id amount expires_at none =
      reopen_reservation z w timezone source_id amount expires_at
  or_reopen w timezone source_id amount expires_at (some id) = pure (some id)

  -- `created_id`: the INSERT's id, or else that of the UPDATE.
  unfoldable pub insert_or_reopen : Window → String → ℕ → ℕ → ℕ → Action (Option ℕ)
  unfolding or_reopen
  insert_or_reopen w timezone source_id amount expires_at = do
    created ← insert_reservation z w timezone source_id amount expires_at
    or_reopen w timezone source_id amount expires_at created

  unfoldable pub hold_created :
      ℕ → String → ℕ → ℕ → ℕ → ℕ × String → ℕ → Option ℕ → Action QuotaReservation
  hold_created owner capability source_id amount limit found expires_at none = do
    existing ← load_reservation z owner capability source_id
    join_holder owner capability source_id existing
  hold_created owner capability source_id amount limit found expires_at (some id) =
      count_hold owner capability source_id amount limit found expires_at id

  unfoldable pub create_hold : ℕ → String → ℕ → ℕ → ℕ → ℕ → ℕ × String → Action QuotaReservation
  create_hold owner capability source_id now amount limit found = do
    ensure_usage_row z (window_at owner found.0 capability) found.1 limit
    created ←
        insert_or_reopen (window_at owner found.0 capability) found.1 source_id amount
          (now + reservation_ttl)
    hold_created owner capability source_id amount limit found (now + reservation_ttl) created

  unfoldable pub open_hold : ℕ → String → ℕ → ℕ → String → ℕ → Option ℕ → Action QuotaReservation
  open_hold owner capability source_id now zone amount limit_value = do
    found ← resolve_usage_window z owner capability now zone
    limit ← lift (limit_or_default capability limit_value)
    create_hold owner capability source_id now amount limit found

  unfoldable pub or_open :
      ℕ → String → ℕ → ℕ → String → ℕ → Option ℕ → Option QuotaReservation → Action QuotaReservation
  or_open owner capability source_id now zone amount limit_value none =
      open_hold owner capability source_id now zone amount limit_value
  or_open owner capability source_id now zone amount limit_value (some reservation) =
      pure reservation

  unfoldable pub reserve_known :
      ℕ → String → ℕ → ℕ → Option String → ℕ → Option ℕ → Action QuotaReservation
  reserve_known owner capability source_id now timezone amount limit_value = do
    zone ← zone_or_preference z owner timezone
    existing ← load_reservation z owner capability source_id
    reused ← reuse owner capability source_id now existing
    or_open owner capability source_id now zone amount limit_value reused

  unfoldable pub reserve_quota :
      ℕ → String → ℕ → Moment → Option String → ℕ → Option ℕ → Action QuotaReservation
  reserve_quota owner capability source_id now timezone amount limit_value = do
    t ← lift (require_aware now)
    cap ← lift (require_capability capability)
    assert_writable_transaction
    reserve_known owner cap source_id t timezone amount limit_value
