-- ===== src/Quota/Ledger/Reads.antt =====
-- The calls of the quota code that only read.
use kelin_server.Prelude.{ℕ, String, Option, none, some, Reads, read_rules, refl}
use kelin_server.Quota.Catalog.{Zones}
use kelin_server.Quota.Store.{Window, QuotaSnapshot}
use kelin_server.Quota.Usage.{
  assert_writable_transaction, owner_timezone, resolve_usage_window, load_usage,
}
use kelin_server.Quota.Holds.{Loaded, load_reservation}
use kelin_server.Quota.Service.{zone_or_preference, usage_of, or_missing, refuse_consume, or_refuse}
use kelin_server.Quota.Reserve.{join_holder, hold_created, refuse_hold}

pub assert_writable_transaction-Reads : Reads assert_writable_transaction
unfolding assert_writable_transaction
assert_writable_transaction-Reads = record { same = λ s. refl }

module _ (z : Zones) where
  pub owner_timezone-Reads : (owner : ℕ) → Reads (owner_timezone z owner)
  unfolding owner_timezone
  owner_timezone-Reads owner = record { same = λ s. refl }

  pub resolve_usage_window-Reads :
      (owner : ℕ) (capability : String) (now : ℕ) (zone : String)
      → Reads (resolve_usage_window z owner capability now zone)
  unfolding resolve_usage_window
  resolve_usage_window-Reads owner capability now zone = search read_rules

  pub load_usage-Reads : (w : Window) → Reads (load_usage z w)
  unfolding load_usage
  load_usage-Reads w = search read_rules

  pub load_reservation-Reads :
      (owner : ℕ) (capability : String) (source_id : ℕ)
      → Reads (load_reservation z owner capability source_id)
  unfolding load_reservation
  load_reservation-Reads owner capability source_id = search read_rules

  pub zone_or_preference-Reads :
      (owner : ℕ) (timezone : Option String) → Reads (zone_or_preference z owner timezone)
  unfolding zone_or_preference
  zone_or_preference-Reads owner none = owner_timezone-Reads owner
  zone_or_preference-Reads owner (some name) = search (read_rules, owner_timezone-Reads)

  or_missing-Reads : (o : Option QuotaSnapshot) → Reads (or_missing z o)
  unfolding or_missing
  or_missing-Reads none = search read_rules
  or_missing-Reads (some snapshot) = search read_rules

  pub usage_of-Reads : (w : Window) → Reads (usage_of z w)
  unfolding usage_of
  usage_of-Reads w = search (read_rules, load_usage-Reads, or_missing-Reads)

  refuse_consume-Reads :
      (owner : ℕ) (capability : String) (now : ℕ) (zone : String) (limit : Option ℕ)
      → Reads (refuse_consume z owner capability now zone limit)
  unfolding refuse_consume
  refuse_consume-Reads owner capability now zone limit =
      search (read_rules, resolve_usage_window-Reads, load_usage-Reads)

  pub or_refuse-Reads :
      (owner : ℕ) (capability : String) (now : ℕ) (zone : String) (limit : Option ℕ)
      (o : Option QuotaSnapshot)
      → Reads (or_refuse z owner capability now zone limit o)
  unfolding or_refuse
  or_refuse-Reads owner capability now zone limit none =
      refuse_consume-Reads owner capability now zone limit
  or_refuse-Reads owner capability now zone limit (some taken) = search read_rules

  join_holder-Reads :
      (owner : ℕ) (capability : String) (source_id : ℕ) (o : Option Loaded)
      → Reads (join_holder z owner capability source_id o)
  unfolding join_holder
  join_holder-Reads owner capability source_id none = search read_rules
  join_holder-Reads owner capability source_id (some row) = search (read_rules, usage_of-Reads)

  -- A source that is held by another call changes nothing.
  pub hold_created-none-Reads :
      (owner : ℕ) (capability : String) (source_id amount limit : ℕ) (found : ℕ × String)
      (expires_at : ℕ)
      → Reads (hold_created z owner capability source_id amount limit found expires_at none)
  unfolding hold_created
  hold_created-none-Reads owner capability source_id amount limit found expires_at =
      search (read_rules, load_reservation-Reads, join_holder-Reads)

  pub refuse_hold-Reads :
      (owner : ℕ) (capability : String) (limit : ℕ) (found : ℕ × String)
      → Reads (refuse_hold z owner capability limit found)
  unfolding refuse_hold
  refuse_hold-Reads owner capability limit found = search (read_rules, load_usage-Reads)
