-- ===== src/Quota/Ledger/Covered.antt =====
-- Under the invariant the amount of an active reservation can be taken from its window.
use kelin_server.Prelude.{
  ℕ, ◌≤◌, ◌≡◌, ◌∙◌, inl, inr, true, false, some, ok, Option-cases, find?, sum_by, sum_by-none,
  sum_by_one, find?-and, find?-le-sum_by, find?_All, Bool, arith,
}
use kelin_server.Quota.Catalog.{Zones}
use kelin_server.Quota.Store.{Status, UsageRow, ReservationRow, Session, same_window, is_active}
use kelin_server.Quota.Usage.{
  Mode, reserve, release, commit, mode_allows, mode_assigns, apply_reserved_delta, snapshot_of,
}
use kelin_server.Quota.Holds.{marks}
use kelin_server.Quota.Ledger.{reserved_in, held_in, IsStored, IsLedger}
use kelin_server.Quota.Ledger.Keys.{same_window_refl}
use kelin_server.Quota.Ledger.Usage.{
  matches, with_usage, apply_reserved_delta_lem, update_usage-some,
}

held_self :
    (row : ReservationRow) → is_active row.status ≡ true → held_in row.window row ≡ row.amount
held_self row active = ground (arith, same_window_refl row.window)

-- The modes that take a reserved amount.
abbrev pub takes : Mode → Bool
takes reserve = false
takes release = true
takes commit = true

taking_allows :
    (mode : Mode) (amount : ℕ) (u : UsageRow)
    → takes mode ≡ true
    → amount ≤ u.reserved
    → mode_allows mode amount u ≡ true
taking_allows reserve amount u t le = cc
taking_allows release amount u t le = ground arith
taking_allows commit amount u t le = ground arith

module _ (mode : Mode) (takes_it : takes mode ≡ true) (id : ℕ) (from_status : Status → Bool)
    (s : Session) (h : IsLedger s) (row : ReservationRow)
    (found : find? (marks id from_status) s.reservations ≡ some row)
    (active : is_active row.status ≡ true) where
  row-IsStored : IsStored s.next_id row
  row-IsStored = find?_All (IsStored s.next_id) (marks id from_status) s.reservations found h.stored

  reserved_sum : row.amount ≤ sum_by (reserved_in row.window) s.usage
  reserved_sum = omega (
    arith,
    h.counted row.window,
    find?-le-sum_by (held_in row.window) (marks id from_status) s.reservations found,
    held_self row active,
  )

  -- The window has a row, and the row's condition holds.
  pub covered :
      (u : UsageRow) × (find? (matches row.window (mode_allows mode row.amount)) s.usage ≡ some u)
  covered = elim (Option-cases (find? (λ r. same_window r.window row.window) s.usage)) [
    | inl absent ↦ absurd (
        omega (
          arith,
          row-IsStored.1,
          reserved_sum,
          sum_by-none (λ r. same_window r.window row.window) (λ r. r.reserved) s.usage absent,
        ))
    | inr (u, e) ↦ (
      u,
      find?-and (λ r. same_window r.window row.window) (mode_allows mode row.amount) s.usage e
          (taking_allows mode row.amount u takes_it (
            omega (
              arith,
              reserved_sum,
              sum_by_one (λ r. same_window r.window row.window) (λ r. r.reserved) s.usage
                  (h.one_window row.window) e,
            ))),
    )
  ]

  -- The statement returns the changed row, and leaves the amount pending.
  pub taken :
      (z : Zones)
      → apply_reserved_delta z row.window row.amount mode s ≡ (
        ok (some (snapshot_of z (mode_assigns mode row.amount covered.0) row.window.capability)),
        with_usage row.window (mode_allows mode row.amount) (mode_assigns mode row.amount) s,
      )
  taken z =
      apply_reserved_delta_lem z row.window row.amount mode s row-IsStored.0 row-IsStored.1
      ∙ update_usage-some z row.window (mode_allows mode row.amount) (mode_assigns mode row.amount)
          s covered.0 covered.1
