-- ===== src/Quota/Service.antt =====
-- The operations of app/services/quota.py. `now` is a `Moment`, which each of them requires to be
-- aware before it reads or writes anything.
use kelin_server.Prelude.{
  Bool, ℕ, String, Option, none, some, str_eq, if◌then◌else◌, Error, runtime_error, quota_exceeded,
  pure, raise, lift, ◌>>=◌, ◌>>◌,
}
use kelin_server.Clock.{Moment, require_aware}
use kelin_server.Quota.Catalog.{Zones, require_capability, usage_reset_at}
use kelin_server.Quota.Store.{
  Status, Window, committed, released, QuotaSnapshot, QuotaReservation, Action, is_status,
  is_active,
}
use kelin_server.Quota.Usage
use kelin_server.Quota.Usage.{
  Mode, reserve, release, commit, assert_writable_transaction, window_at, owner_timezone,
  resolve_usage_window, ensure_usage_row, load_usage, apply_reserved_delta, limit_or_default,
}
use kelin_server.Quota.Holds.{mark_reservation}

module _ (z : Zones) where
  -- `_exceeded(snapshot)` with `exceeded_details`
  unfoldable pub exceeded : QuotaSnapshot → Error
  exceeded snapshot =
      quota_exceeded snapshot.capability (usage_reset_at z snapshot.usage_date snapshot.timezone)

  -- `timezone or await owner_timezone(…)`
  unfoldable pub zone_or_preference : ℕ → Option String → Action String
  zone_or_preference owner none = owner_timezone z owner
  zone_or_preference owner (some name) =
      if str_eq name "" then owner_timezone z owner else pure name

  -- The snapshot of a window with no row.
  abbrev pub empty_snapshot : String → ℕ → ℕ × String → QuotaSnapshot
  empty_snapshot capability limit found = record {
    capability = capability;
    used = 0;
    reserved = 0;
    limit = limit;
    usage_date = found.0;
    timezone = found.1;
    version = 1;
  }

  abbrev pub or_empty : Option QuotaSnapshot → QuotaSnapshot → QuotaSnapshot
  or_empty none empty = empty
  or_empty (some snapshot) empty = snapshot

  -- What `consume` raises when its UPDATE matched no row.
  unfoldable pub refuse_consume : ℕ → String → ℕ → String → Option ℕ → Action QuotaSnapshot
  refuse_consume owner capability now zone limit_value = do
    found ← resolve_usage_window z owner capability now zone
    current ← load_usage z (window_at owner found.0 capability)
    limit ← lift (limit_or_default capability limit_value)
    raise (exceeded (or_empty current (empty_snapshot capability limit found)))

  unfoldable pub or_refuse :
      ℕ → String → ℕ → String → Option ℕ → Option QuotaSnapshot → Action QuotaSnapshot
  or_refuse owner capability now zone limit_value none =
      refuse_consume owner capability now zone limit_value
  or_refuse owner capability now zone limit_value (some taken) = pure taken

  unfoldable pub consume : ℕ → String → Moment → Option String → ℕ → Option ℕ → Action QuotaSnapshot
  consume owner capability now timezone amount limit_value = do
    t ← lift (require_aware now)
    cap ← lift (require_capability capability)
    assert_writable_transaction
    zone ← zone_or_preference owner timezone
    snapshot ← Usage.consume z owner cap t zone amount limit_value
    or_refuse owner cap t zone limit_value snapshot

  unfoldable pub or_missing : Option QuotaSnapshot → Action QuotaSnapshot
  or_missing none = raise (runtime_error "quota reservation is missing its usage row")
  or_missing (some snapshot) = pure snapshot

  unfoldable pub usage_of : Window → Action QuotaSnapshot
  unfolding or_missing
  usage_of w = do snapshot ← load_usage z w; or_missing snapshot

  -- What is held for a reservation is given back, and its row is released from `status`.
  unfoldable pub give_back : Window → ℕ → ℕ → (Status → Bool) → Action (Option QuotaSnapshot)
  give_back w amount id from_status = do
    snapshot ← apply_reserved_delta z w amount release
    mark_reservation id from_status released
    pure snapshot

  unfoldable pub mark_committed : ℕ → Option QuotaSnapshot → Action QuotaSnapshot
  mark_committed id none =
      raise (runtime_error "quota reservation commit matched no reserved amount")
  mark_committed id (some counted) = do mark_reservation id is_active committed; pure counted

  unfoldable pub commit_held : Window → ℕ → ℕ → Action QuotaSnapshot
  unfolding mark_committed
  commit_held w amount id = do
    snapshot ← apply_reserved_delta z w amount commit
    mark_committed id snapshot

  abbrev pub window_of : ℕ → QuotaReservation → Window
  window_of owner reservation = window_at owner reservation.usage_date reservation.capability

  unfoldable pub commit_quota : ℕ → QuotaReservation → Moment → Action QuotaSnapshot
  unfolding commit_held
  commit_quota owner reservation now = do
    t ← lift (require_aware now)
    assert_writable_transaction
    if is_status committed reservation.status
        then pure reservation.snapshot
        else commit_held (window_of owner reservation) reservation.amount reservation.id

  unfoldable pub release_quota : ℕ → QuotaReservation → Moment → Action (Option QuotaSnapshot)
  unfolding give_back
  release_quota owner reservation now = do
    t ← lift (require_aware now)
    assert_writable_transaction
    if is_active reservation.status
        then give_back (window_of owner reservation) reservation.amount reservation.id is_active
        else pure (some reservation.snapshot)
