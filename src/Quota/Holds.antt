-- ===== src/Quota/Holds.antt =====
-- The statements of app/repositories/quota.py on `quota_reservations`.
use kelin_server.Prelude
use kelin_server.Prelude.{
  ℕ, ◌+◌, ◌-◌, String, Bool, true, false, ◌&&◌, ◌||◌, Option, none, some, List, [], ◌∷◌, ◌++◌,
  find?, update_where, take, ltb, leb, ◌==◌, str_eq, is_some, if◌then◌else◌, Result, ok,
  value_error, runtime_error, integrity_error, pure, gets, lift, modify, raise_if, ◌>>=◌, ◌>>◌,
}
use kelin_server.Quota.Catalog.{Zones, require_capability, coerce_timezone}
use kelin_server.Quota.Store.{
  Window, Status, held, expiring, released, ReservationRow, Session, Action, same_source, is_status,
  is_active,
}

-- What `load_reservation` selects.
pub record Loaded : Type 0 where
  pub id : ℕ
  pub status : Status
  pub usage_date : ℕ
  pub timezone : String
  pub amount : ℕ
  pub expires_at : ℕ

-- `ORDER BY expires_at ASC, id ASC`
abbrev due_before : ReservationRow → ReservationRow → Bool
due_before a b = ltb a.expires_at b.expires_at || (a.expires_at == b.expires_at && leb a.id b.id)

abbrev insert_due : ReservationRow → List ReservationRow → List ReservationRow
insert_due row [] = row ∷ []
insert_due row (other ∷ rest) =
    if due_before row other then row ∷ other ∷ rest else other ∷ insert_due row rest

-- The rows of `picked`: active, past their expiry, ordered.
unfoldable pub due_rows : ℕ → List ReservationRow → List ReservationRow
due_rows now [] = []
due_rows now (row ∷ rest) =
    let due = due_rows now rest in
    if is_active row.status && leb row.expires_at now then insert_due row due else due

abbrev pub in_rows : ℕ → List ReservationRow → Bool
in_rows id [] = false
in_rows id (row ∷ rest) = id == row.id || in_rows id rest

module _ (z : Zones) where
  -- `INSERT … ON CONFLICT DO NOTHING RETURNING id`; the table checks `amount > 0`.
  abbrev insert_row : ReservationRow → Session → Option ℕ × Session
  insert_row row s =
      elim (find? (same_source row.window.user_id row.window.capability row.source_id)
        s.reservations) [
          | none ↦ (
            some s.next_id,
            record s {
              reservations = s.reservations ++ record row { id = s.next_id } ∷ [];
              next_id = s.next_id + 1;
            },
          )
          | some old ↦ (none, s)
        ]

  unfoldable pub insert_reservation : Window → String → ℕ → ℕ → ℕ → Action (Option ℕ)
  insert_reservation w timezone source_id amount expires_at = do
    cap ← lift (require_capability w.capability)
    raise_if (amount == 0) (integrity_error "ck_quota_reservations_amount")
    λ s.
        let (id, s') =
          insert_row
            (record {
              id = 0;
              window = w;
              timezone = coerce_timezone z (some timezone);
              source_id = source_id;
              amount = amount;
              expires_at = expires_at;
              status = held;
            })
            s in
        (ok id, s')

  -- `UPDATE … WHERE … AND status = 'released' RETURNING id`; the table checks `amount > 0`.
  unfoldable pub reopen_reservation : Window → String → ℕ → ℕ → ℕ → Action (Option ℕ)
  reopen_reservation w timezone source_id amount expires_at = do
    cap ← lift (require_capability w.capability)
    rows ← gets (λ s. s.reservations)
    let picks =
        λ (r : ReservationRow). same_source w.user_id cap source_id r && is_status released r.status
    let found : Option ReservationRow = find? picks rows
    raise_if (is_some found && amount == 0) (integrity_error "ck_quota_reservations_amount")
    modify (λ s. record s {
      reservations =
          update_where picks
            (λ r. record r {
              status = held;
              window = w;
              timezone = coerce_timezone z (some timezone);
              amount = amount;
              expires_at = expires_at;
            })
            s.reservations;
    })
    pure (Prelude.Option.map (λ (r : ReservationRow). r.id) found)

  unfoldable pub load_reservation : ℕ → String → ℕ → Action (Option Loaded)
  load_reservation owner capability source_id = do
    cap ← lift (require_capability capability)
    rows ← gets (λ s. s.reservations)
    pure (elim (find? (same_source owner cap source_id) rows) [
      | none ↦ none
      | some row ↦ some (record {
        id = row.id;
        status = row.status;
        usage_date = row.window.usage_date;
        timezone = coerce_timezone z (some row.timezone);
        amount = row.amount;
        expires_at = row.expires_at;
      })
    ])

-- `WHERE id = :id AND status IN (from_status)`
unfoldable pub marks : ℕ → (Status → Bool) → ReservationRow → Bool
marks id from_status row = row.id == id && from_status row.status

unfoldable pub mark_reservation : ℕ → (Status → Bool) → Status → Action Bool
unfolding marks
mark_reservation id from_status to_status = do
  rows ← gets (λ s. s.reservations)
  modify (λ s. record s {
    reservations =
        update_where (marks id from_status) (λ r. record r { status = to_status }) s.reservations;
  })
  pure (is_some (find? (marks id from_status) rows))

unfoldable pub claim_expired_reservations : ℕ → ℕ → Action (List ReservationRow)
unfolding due_rows
claim_expired_reservations now limit = do
  rows ← gets (λ s. s.reservations)
  let picked = take limit (due_rows now rows)
  modify (λ s. record s {
    reservations =
        update_where (λ r. in_rows r.id picked) (λ r. record r { status = expiring })
          s.reservations;
  })
  pure picked
