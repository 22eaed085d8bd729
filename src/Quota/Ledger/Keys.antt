-- ===== src/Quota/Ledger/Keys.antt =====
-- The keys of the two tables are compared as wholes.
use kelin_server.Prelude.{ℕ, ◌≡◌, String, true, eq_iff, arith}
use kelin_server.Quota.Store.{Window, ReservationRow, same_window, same_source}

pub same_window-eq : (a b : Window) → same_window a b ≡ true → a ≡ b
unfolding same_window
same_window-eq a b h = ground (arith, eq_iff a.capability b.capability)

pub same_window_refl : (a : Window) → same_window a a ≡ true
unfolding same_window
same_window_refl a = ground (arith, eq_iff a.capability a.capability)

-- A row has the source that it was found under.
pub same_source-eq :
    (owner : ℕ) (capability : String) (source_id : ℕ) (row : ReservationRow)
    → same_source owner capability source_id row ≡ true
    → (row.window.user_id ≡ owner)
      × (row.window.capability ≡ capability)
      × (row.source_id ≡ source_id)
unfolding same_source
same_source-eq owner capability source_id row h =
    ground (arith, eq_iff row.window.capability capability)

-- Two rows of one user, capability and source pass the same tests.
pub same_source_cong :
    (a b : ReservationRow)
    → a.window.user_id ≡ b.window.user_id
    → a.window.capability ≡ b.window.capability
    → a.source_id ≡ b.source_id
    → (owner : ℕ) (capability : String) (source_id : ℕ)
    → same_source owner capability source_id a ≡ same_source owner capability source_id b
unfolding same_source
same_source_cong a b user cap source owner capability source_id = rw (user, cap, source)
