-- ===== src/Quota/Ledger.antt =====
-- The invariant of the two tables: what a window reserves is what its active reservations hold.
pub mod Keys
pub mod Usage
pub mod Holds
pub mod Reads
pub mod Opened
pub mod Steps
pub mod Covered
pub mod Operations
pub mod Opening
pub mod Reserving
pub mod Consuming
use kelin_server.Prelude.{
  ℕ, ◌+◌, ◌≤◌, ◌<◌, ◌≡◌, String, ◌&&◌, ◌==◌, if◌then◌else◌, ok, All, sum_by, count,
}
use kelin_server.Quota.Catalog.{require_capability}
use kelin_server.Quota.Store.{
  Window, UsageRow, ReservationRow, Session, same_window, same_source, is_active,
}

-- What a row adds to the reserved amount of a window.
abbrev pub reserved_in : Window → UsageRow → ℕ
reserved_in w row = if same_window row.window w then row.reserved else 0

-- What a reservation holds of a window.
abbrev pub held_in : Window → ReservationRow → ℕ
held_in w row = if same_window row.window w && is_active row.status then row.amount else 0

-- The table's CHECK constraints on a reservation, and an id that the database has generated.
abbrev pub IsStored : ℕ → ReservationRow → Type 0
IsStored next_id row =
    (require_capability row.window.capability ≡ ok row.window.capability)
    × (1 ≤ row.amount)
    × (row.id < next_id)

abbrev pub IsWithinLimit : UsageRow → Type 0
IsWithinLimit row = row.used + row.reserved ≤ row.limit_value

-- The invariant while `pending` of each window is held by a row and not yet, or no longer, counted
-- as reserved.
pub record IsLedgerWith (pending : Window → ℕ) (s : Session) : Type 0 where
  -- the unique keys of the tables
  pub one_window : (w : Window) → count (λ r. same_window r.window w) s.usage ≤ 1
  pub one_source :
      (owner : ℕ) (capability : String) (source_id : ℕ)
      → count (same_source owner capability source_id) s.reservations ≤ 1
  pub one_id : (id : ℕ) → count (λ r. r.id == id) s.reservations ≤ 1
  pub stored : All (IsStored s.next_id) s.reservations
  -- no window is used beyond its limit
  pub within : All IsWithinLimit s.usage
  -- every reserved unit is held by an active reservation, and the other way round
  pub counted :
      (w : Window) → sum_by (reserved_in w) s.usage + pending w ≡ sum_by (held_in w) s.reservations

abbrev pub nothing : Window → ℕ
nothing w = 0

-- Between transactions nothing is pending.
abbrev pub IsLedger : Session → Type 0
IsLedger = IsLedgerWith nothing

abbrev pub amount_in : Window → ℕ → Window → ℕ
amount_in w amount v = if same_window w v then amount else 0
