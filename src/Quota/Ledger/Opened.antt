-- ===== src/Quota/Ledger/Opened.antt =====
-- A reservation from the INSERT or the reopening to its count in the window.
use kelin_server.Prelude.{
  ℕ, ◌≤◌, ◌≡◌, refl, ◌∙◌, inl, inr, String, true, Option, none, some, ◌==◌, ok, err, find?, arith,
  Option-cases, &&-true, after, after_read, find?-none_of_count, find?-append_none,
  find?-update_where, update_where_none, Result, count-eq-zero, count_mono, ℕ,
}
use kelin_server.Quota.Catalog.{Zones, require_capability}
use kelin_server.Quota.Store.{
  Window, held, released, ReservationRow, Session, same_source, is_active, is_status,
}
use kelin_server.Quota.Usage.{reserve, mode_allows, mode_assigns, apply_reserved_delta, window_at}
use kelin_server.Quota.Holds.{marks, mark_reservation, insert_reservation, reopen_reservation}
use kelin_server.Quota.Reserve.{
  count_hold, counted_or_refused, refuse_hold, insert_or_reopen, or_reopen,
}
use kelin_server.Quota.Ledger.{IsLedgerWith, IsLedger, amount_in}
use kelin_server.Quota.Ledger.Usage.{
  matches, apply_reserved_delta_lem, update_usage-some, update_usage-none, mode-IsLedgerWith,
}
use kelin_server.Quota.Ledger.Holds.{
  with_mark, with_mark-IsLedger, mark_reservation_lem, with_insert, with_insert-IsLedgerWith,
  new_row, reopens, reopened, with_rows, reopen-IsLedgerWith, marks_one, fresh_id,
}
use kelin_server.Quota.Ledger.Reads.{refuse_hold-Reads}

-- A reservation row that has just been opened: active, found by its id, and pending.
pub record Opened (w : Window) (amount id : ℕ) (s : Session) : Type 0 where
  pub ledger : IsLedgerWith (amount_in w amount) s
  pub row : ReservationRow
  pub found : find? (marks id (is_status held)) s.reservations ≡ some row
  pub window : row.window ≡ w
  pub held_amount : row.amount ≡ amount
  pub active : is_active row.status ≡ true

module _ (z : Zones) where
  -- A refused hold is withdrawn.
  refused-IsLedger :
      (owner : ℕ) (capability : String) (source_id amount limit : ℕ) (found : ℕ × String)
      (expires_at id : ℕ) (s : Session)
      → Opened (window_at owner found.0 capability) amount id s
      → IsLedger
          (counted_or_refused z owner capability source_id amount limit found expires_at id none
            s).1
  unfolding counted_or_refused
  refused-IsLedger owner capability source_id amount limit found expires_at id s o =
      after (λ r. IsLedger r.1) (mark_reservation id (is_status held) released)
        (λ _. refuse_hold z owner capability limit found) s
        (mark_reservation_lem id (is_status held) released s)
        (after_read IsLedger (refuse_hold z owner capability limit found)
          (refuse_hold-Reads z owner capability limit found)
          (with_mark id (is_status held) released s)
          (with_mark-IsLedger id (is_status held) released s o.row
            (rw (o.window, o.held_amount) o.ledger) o.found o.active refl))

  pub count_hold-IsLedger :
      (owner : ℕ) (capability : String) (source_id amount limit : ℕ) (found : ℕ × String)
      (expires_at id : ℕ) (s : Session)
      → require_capability capability ≡ ok capability
      → 1 ≤ amount
      → Opened (window_at owner found.0 capability) amount id s
      → IsLedger (count_hold z owner capability source_id amount limit found expires_at id s).1
  unfolding count_hold
  count_hold-IsLedger owner capability source_id amount limit found expires_at id s known pos o =
      let w = window_at owner found.0 capability in
      let run = apply_reserved_delta_lem z w amount reserve s known pos in
      let next = counted_or_refused z owner capability source_id amount limit found expires_at id in
      elim (Option-cases (find? (matches w (mode_allows reserve amount)) s.usage)) [
        | inl full ↦
            after (λ r. IsLedger r.1) (apply_reserved_delta z w amount reserve) next s
              (run
                ∙ update_usage-none z w (mode_allows reserve amount) (mode_assigns reserve amount) s
                    full)
              (refused-IsLedger owner capability source_id amount limit found expires_at id s o)
        | inr (row, e) ↦
            after (λ r. IsLedger r.1) (apply_reserved_delta z w amount reserve) next s
              (run
                ∙ update_usage-some z w (mode_allows reserve amount) (mode_assigns reserve amount) s
                    row e)
              (unfold counted_or_refused in mode-IsLedgerWith reserve w amount s row o.ledger e)
      ]

-- What `insert_or_reopen` has done, by what it returned.
abbrev pub Creation : Window → ℕ → Session → Result (Option ℕ) × Session → Type 0
Creation w amount s (ok none, s') = s' ≡ s
Creation w amount s (ok (some id), s') = Opened w amount id s'
Creation w amount s (err e, s') = s' ≡ s

module _ (z : Zones) (w : Window) (timezone : String) (source_id amount expires_at : ℕ)
    (s : Session) (h : IsLedger s) (known : require_capability w.capability ≡ ok w.capability)
    (positive : 1 ≤ amount) where
  insert_none :
      find? (same_source w.user_id w.capability source_id) s.reservations ≡ none
      → insert_reservation z w timezone source_id amount expires_at s ≡ (
        ok (some s.next_id),
        with_insert (new_row z w timezone source_id amount expires_at s.next_id) s,
      )
  unfolding insert_reservation
  insert_none e = ground arith

  insert_some :
      (old : ReservationRow)
      → find? (same_source w.user_id w.capability source_id) s.reservations ≡ some old
      → insert_reservation z w timezone source_id amount expires_at s ≡ (ok none, s)
  unfolding insert_reservation
  insert_some old e = ground arith

  reopen_none :
      find? (reopens w.user_id w.capability source_id) s.reservations ≡ none
      → reopen_reservation z w timezone source_id amount expires_at s ≡ (ok none, s)
  unfolding reopen_reservation
  reopen_none e =
      let p = reopens w.user_id w.capability source_id in
      ground (
        arith,
        update_where_none p (reopened z w timezone amount expires_at) s.reservations
            (count-eq-zero p s.reservations e),
      )

  reopen_some :
      (row : ReservationRow)
      → find? (reopens w.user_id w.capability source_id) s.reservations ≡ some row
      → reopen_reservation z w timezone source_id amount expires_at s ≡ (
        ok (some row.id),
        with_rows
            (reopens w.user_id w.capability source_id)
            (reopened z w timezone amount expires_at)
            s,
      )
  unfolding reopen_reservation
  reopen_some row e = ground arith

  fresh_marks : find? (marks s.next_id (is_status held)) s.reservations ≡ none
  unfolding marks
  fresh_marks = find?-none_of_count (marks s.next_id (is_status held)) s.reservations (
      omega (
        arith,
        fresh_id s.next_id s.next_id s.reservations h.stored (omega arith),
        count_mono (marks s.next_id (is_status held)) (λ r. r.id == s.next_id) s.reservations
            (λ x e. (&&-true (x.id == s.next_id) (is_status held x.status) e).0),
      ))

  inserted-Opened :
      find? (same_source w.user_id w.capability source_id) s.reservations ≡ none
      → Opened w amount s.next_id
          (with_insert (new_row z w timezone source_id amount expires_at s.next_id) s)
  unfolding marks
  inserted-Opened absent =
      let row = new_row z w timezone source_id amount expires_at s.next_id in
      record {
        ledger = with_insert-IsLedgerWith row s h refl known positive refl absent;
        row = row;
        found =
            find?-append_none (marks s.next_id (is_status held)) s.reservations row fresh_marks
              (ground arith);
        window = refl;
        held_amount = refl;
        active = refl;
      }

  reopened-Opened :
      (row : ReservationRow)
      → find? (reopens w.user_id w.capability source_id) s.reservations ≡ some row
      → Opened w amount row.id (
          with_rows
            (reopens w.user_id w.capability source_id)
            (reopened z w timezone amount expires_at)
            s)
  unfolding marks
  reopened-Opened row e =
      let p = reopens w.user_id w.capability source_id in
      let f = reopened z w timezone amount expires_at in
      let ledger =
        reopen-IsLedgerWith z w timezone source_id amount expires_at s h row known positive e in
      record {
        ledger = ledger;
        row = f row;
        found =
            find?-update_where p (marks row.id (is_status held)) f s.reservations e (ground arith)
              (marks_one row.id (is_status held) (with_rows p f s) ledger);
        window = refl;
        held_amount = refl;
        active = refl;
      }

  or_reopen-Creation :
      Creation w amount s (or_reopen z w timezone source_id amount expires_at none s)
  unfolding or_reopen
  or_reopen-Creation =
      elim (Option-cases (find? (reopens w.user_id w.capability source_id) s.reservations)) [
        | inl e ↦ rw (reopen_none e) refl
        | inr (row, e) ↦ rw (reopen_some row e) (reopened-Opened row e)
      ]

  pub insert_or_reopen-Creation :
      Creation w amount s (insert_or_reopen z w timezone source_id amount expires_at s)
  unfolding insert_or_reopen
  insert_or_reopen-Creation =
      elim (Option-cases (find? (same_source w.user_id w.capability source_id) s.reservations)) [
        | inl e ↦
            after (Creation w amount s)
              (insert_reservation z w timezone source_id amount expires_at)
              (or_reopen z w timezone source_id amount expires_at) s (insert_none e)
              (inserted-Opened e)
        | inr (old, e) ↦
            after (Creation w amount s)
              (insert_reservation z w timezone source_id amount expires_at)
              (or_reopen z w timezone source_id amount expires_at) s (insert_some old e)
              or_reopen-Creation
      ]
