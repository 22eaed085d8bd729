-- ===== src/Quota/Ledger/Operations.antt =====
-- The operations of app/services/quota.py keep the invariant, and what they return under it.
use kelin_server.Prelude.{◌≡◌, refl, true, some, ok, find?, Bool, after, pure, ◌>>◌}
use kelin_server.Quota.Catalog.{Zones}
use kelin_server.Quota.Store.{
  Status, committed, released, UsageRow, ReservationRow, QuotaSnapshot, Session, is_active,
}
use kelin_server.Quota.Usage.{
  Mode, release, commit, mode_allows, mode_assigns, apply_reserved_delta, snapshot_of,
}
use kelin_server.Quota.Holds.{marks, mark_reservation}
use kelin_server.Quota.Service.{give_back, commit_held, mark_committed}
use kelin_server.Quota.Ledger.{IsLedger}
use kelin_server.Quota.Ledger.Usage.{with_usage, mode-IsLedgerWith}
use kelin_server.Quota.Ledger.Holds.{with_mark, with_mark-IsLedger, mark_reservation_lem}
use kelin_server.Quota.Ledger.Covered.{covered, taken}

-- The session after an active row's amount has been taken from its window, and the row closed.
abbrev pub settled : Mode → ReservationRow → (Status → Bool) → Status → Session → Session
settled mode row from_status to_status s =
    with_mark row.id from_status to_status
      (with_usage row.window (mode_allows mode row.amount) (mode_assigns mode row.amount) s)

module _ (z : Zones) (from_status : Status → Bool) (s : Session) (h : IsLedger s)
    (row : ReservationRow) (found : find? (marks row.id from_status) s.reservations ≡ some row)
    (active : is_active row.status ≡ true) where
  pub released-IsLedger : IsLedger (settled release row from_status released s)
  released-IsLedger =
      let u = covered release refl row.id from_status s h row found active in
      with_mark-IsLedger row.id from_status released
        (with_usage row.window (mode_allows release row.amount) (mode_assigns release row.amount) s)
        row (mode-IsLedgerWith release row.window row.amount s u.0 h u.1) found active refl

  pub committed-IsLedger : IsLedger (settled commit row from_status committed s)
  committed-IsLedger =
      let u = covered commit refl row.id from_status s h row found active in
      with_mark-IsLedger row.id from_status committed
        (with_usage row.window (mode_allows commit row.amount) (mode_assigns commit row.amount) s)
        row (mode-IsLedgerWith commit row.window row.amount s u.0 h u.1) found active refl

  -- The row of the window after the amount has been taken.
  abbrev pub taken_row : Mode → UsageRow → QuotaSnapshot
  taken_row mode u = snapshot_of z (mode_assigns mode row.amount u) row.window.capability

  -- Giving back always finds the amount.
  pub give_back_lem : give_back z row.window row.amount row.id from_status s ≡ (
    ok (some (taken_row release (covered release refl row.id from_status s h row found active).0)),
    settled release row from_status released s,
  )
  unfolding give_back
  give_back_lem =
      let snapshot =
        taken_row release (covered release refl row.id from_status s h row found active).0 in
      let done = settled release row from_status released s in
      after (λ r. r ≡ (ok (some snapshot), done))
        (apply_reserved_delta z row.window row.amount release)
        (λ o. mark_reservation row.id from_status released >> pure o) s
        (taken release refl row.id from_status s h row found active z)
        (after (λ r. r ≡ (ok (some snapshot), done)) (mark_reservation row.id from_status released)
          (λ _. pure (some snapshot))
          (with_usage row.window (mode_allows release row.amount) (mode_assigns release row.amount)
            s)
          (mark_reservation_lem row.id from_status released _) refl)

  -- So does the commit of an active reservation.
  pub commit_held_lem :
      is_active ≡ from_status
      → commit_held z row.window row.amount row.id s ≡ (
        ok (taken_row commit (covered commit refl row.id from_status s h row found active).0),
        settled commit row from_status committed s,
      )
  unfolding commit_held mark_committed
  commit_held_lem same =
      let snapshot =
        taken_row commit (covered commit refl row.id from_status s h row found active).0 in
      let done = settled commit row from_status committed s in
      after (λ r. r ≡ (ok snapshot, done)) (apply_reserved_delta z row.window row.amount commit)
        (mark_committed z row.id) s (taken commit refl row.id from_status s h row found active z)
        (after (λ r. r ≡ (ok snapshot, done)) (mark_reservation row.id is_active committed)
          (λ _. pure snapshot)
          (with_usage row.window (mode_allows commit row.amount) (mode_assigns commit row.amount) s)
          (mark_reservation_lem row.id is_active committed _) (rw same refl))
