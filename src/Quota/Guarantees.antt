-- ===== src/Quota/Guarantees.antt =====
-- What the operations of app/services/quota.py promise.
use kelin_server.Prelude.{
  ℕ, ◌+◌, ◌≤◌, ◌≡◌, ◌∙◌, refl, sym, subst, sum_by, true, false, none, some, ok, find?, update_where,
  arith, ap, count-eq-zero, update_where_none, find?-update_where-none, after, pure,
}
use kelin_server.Clock.{aware, require_aware}
use kelin_server.Quota.Catalog.{Zones, require_capability}
use kelin_server.Quota.Store.{
  Window, Status, committed, released, UsageRow, ReservationRow, QuotaSnapshot, QuotaReservation,
  Session, is_active, is_status,
}
use kelin_server.Quota.Usage.{
  commit, release, mode_allows, mode_assigns, apply_reserved_delta, snapshot_of,
  assert_writable_transaction,
}
use kelin_server.Quota.Holds.{marks, mark_reservation}
use kelin_server.Quota.Service.{
  give_back, commit_quota, release_quota, commit_held, mark_committed, window_of,
}
use kelin_server.Quota.Ledger.{reserved_in, held_in, IsLedger, nothing}
use kelin_server.Quota.Ledger.Usage.{
  matches, matches-window, with_usage, reserved_moves, apply_reserved_delta_lem, update_usage-some,
}
use kelin_server.Quota.Ledger.Holds.{mark_reservation_lem}
use kelin_server.Quota.Ledger.Keys.{same_window_refl}
use kelin_server.Quota.Ledger.Covered.{covered}
use kelin_server.Quota.Ledger.Operations.{
  settled, released-IsLedger, committed-IsLedger, give_back_lem, commit_held_lem, taken_row,
}

-- The reservation stands for an active row of the table.
pub record IsLive (z : Zones) (owner : ℕ) (r : QuotaReservation) (s : Session) : Type 0 where
  pub row : ReservationRow
  pub found : find? (marks row.id is_active) s.reservations ≡ some row
  pub id : r.id ≡ row.id
  pub window : window_of z owner r ≡ row.window
  pub amount : r.amount ≡ row.amount
  pub active : is_active row.status ≡ true
  pub status : is_active r.status ≡ true

closed :
    (id : ℕ) (to_status : Status) (s : Session)
    → is_active to_status ≡ false
    → find?
        (marks id is_active)
        (update_where (marks id is_active) (λ r. record r { status = to_status }) s.reservations)
      ≡ none
unfolding marks
closed id to_status s off =
    find?-update_where-none (marks id is_active) (λ r. record r { status = to_status })
      s.reservations (λ x e. ground arith)

not_committed : (st : Status) → is_active st ≡ true → is_status committed st ≡ false
not_committed st e = ground arith

module _ (z : Zones) (owner : ℕ) (r : QuotaReservation) (now : ℕ) (s : Session) where
  commit_run :
      s.read_only ≡ false
      → is_status committed r.status ≡ false
      → commit_quota z owner r (aware now) s ≡ commit_held z (window_of z owner r) r.amount r.id s
  unfolding commit_quota require_aware assert_writable_transaction
  commit_run writable open_status = simp (writable, open_status)

  release_run :
      s.read_only ≡ false
      → is_active r.status ≡ true
      → release_quota z owner r (aware now) s
        ≡ give_back z (window_of z owner r) r.amount r.id is_active s
  unfolding release_quota require_aware assert_writable_transaction
  release_run writable open_status = simp (writable, open_status)

module _ (z : Zones) (owner : ℕ) (r : QuotaReservation) (now : ℕ) (s : Session) (h : IsLedger s)
    (writable : s.read_only ≡ false) (live : IsLive z owner r s) where
  -- The commit of a live reservation in a writable transaction returns, keeps the invariant, and
  -- closes the reservation.
  pub commit_quota-IsLedger :
      let (result, s') = commit_quota z owner r (aware now) s in
      (q : QuotaSnapshot) × (result ≡ ok q)
      × IsLedger s'
      × (find? (marks r.id is_active) s'.reservations ≡ none)
  commit_quota-IsLedger =
      let run : commit_quota z owner r (aware now) s ≡ (
        ok (
            taken_row z is_active s h live.row live.found live.active commit
              (covered commit refl live.row.id is_active s h live.row live.found live.active).0),
        settled commit live.row is_active committed s,
      ) =
        commit_run z owner r now s writable (not_committed r.status live.status)
        ∙ rw (live.window, live.amount, live.id)
            (commit_held_lem z is_active s h live.row live.found live.active refl) in
      rw (run, live.id)
        (
          taken_row z is_active s h live.row live.found live.active commit
              (covered commit refl live.row.id is_active s h live.row live.found live.active).0,
          refl,
          committed-IsLedger z is_active s h live.row live.found live.active,
          closed live.row.id committed s refl,
        )

  -- The release of a live reservation in a writable transaction returns the window's row, keeps the
  -- invariant, and closes the reservation.
  pub release_quota-IsLedger :
      let (result, s') = release_quota z owner r (aware now) s in
      (q : QuotaSnapshot) × (result ≡ ok (some q))
      × IsLedger s'
      × (find? (marks r.id is_active) s'.reservations ≡ none)
  release_quota-IsLedger =
      let run : release_quota z owner r (aware now) s ≡ (
        ok (
            some (
              taken_row z is_active s h live.row live.found live.active release
                (covered release refl live.row.id is_active s h live.row live.found
                  live.active).0)),
        settled release live.row is_active released s,
      ) =
        release_run z owner r now s writable live.status
        ∙ rw (live.window, live.amount, live.id)
            (give_back_lem z is_active s h live.row live.found live.active) in
      rw (run, live.id)
        (
          taken_row z is_active s h live.row live.found live.active release
              (covered release refl live.row.id is_active s h live.row live.found live.active).0,
          refl,
          released-IsLedger z is_active s h live.row live.found live.active,
          closed live.row.id released s refl,
        )

module _ (z : Zones) (w : Window) (amount id : ℕ) (s : Session) (u : UsageRow) (h : IsLedger s)
    (known : require_capability w.capability ≡ ok w.capability) (positive : 1 ≤ amount)
    (e : find? (matches w (mode_allows commit amount)) s.usage ≡ some u)
    (gone : find? (marks id is_active) s.reservations ≡ none) where
  -- The session that a commit with no active row leaves.
  stale_session : Session
  stale_session = with_usage w (mode_allows commit amount) (mode_assigns commit amount) s

  stale_run : (commit_held z w amount id s).1 ≡ stale_session
  unfolding commit_held mark_committed stale_session
  stale_run =
      let taken = with_usage w (mode_allows commit amount) (mode_assigns commit amount) s in
      after (λ r. r.1 ≡ taken) (apply_reserved_delta z w amount commit) (mark_committed z id) s
        (apply_reserved_delta_lem z w amount commit s known positive
          ∙ update_usage-some z w (mode_allows commit amount) (mode_assigns commit amount) s u e)
        (after (λ r. r.1 ≡ taken) (mark_reservation id is_active committed)
          (λ _. pure (snapshot_of z (mode_assigns commit amount u) w.capability)) taken
          (mark_reservation_lem id is_active committed taken)
          (ap (λ rows. record taken { reservations = rows })
            (update_where_none (marks id is_active) (λ x. record x { status = committed })
              s.reservations (count-eq-zero (marks id is_active) s.reservations gone))))

  stale_loss : reserved_in w (mode_assigns commit amount u) + amount ≡ reserved_in w u
  stale_loss =
      let k = matches-window w (mode_allows commit amount) s.usage e in
      rw k.0 (ground (arith, same_window_refl w, k.1))

  -- The window's reserved sum is short of what is held by the amount.
  stale_short :
      let s' = (commit_held z w amount id s).1 in
      sum_by (reserved_in w) s'.usage + amount ≡ sum_by (held_in w) s'.reservations
  stale_short =
      subst
        (λ (t : Session).
          sum_by (reserved_in w) t.usage + amount ≡ sum_by (held_in w) t.reservations)
        (sym stale_run)
        (unfold stale_session in
          omega (
            arith,
            h.counted w,
            reserved_moves w (mode_allows commit amount) (mode_assigns commit amount) s nothing h u
                e w,
            stale_loss,
          ))

module _ (z : Zones) (owner : ℕ) (r : QuotaReservation) (now : ℕ) (s : Session) where
  -- A commit does not look at the row: where a reservation has expired and been given back, and
  -- the row of its window still has its amount reserved for others, a commit takes it from them: the
  -- window's reserved sum is then less than what its active reservations hold, by exactly the amount. The
  -- session is writable and keeps the ledger's invariant before.
  pub commit_quota_stale :
      (u : UsageRow)
      → IsLedger s
      → s.read_only ≡ false
      → is_active r.status ≡ true
      → require_capability r.capability ≡ ok r.capability
      → 1 ≤ r.amount
      → find? (matches (window_of z owner r) (mode_allows commit r.amount)) s.usage ≡ some u
      → find? (marks r.id is_active) s.reservations ≡ none
      → let w = window_of z owner r in
        let s' = (commit_quota z owner r (aware now) s).1 in
        sum_by (reserved_in w) s'.usage + r.amount ≡ sum_by (held_in w) s'.reservations
  commit_quota_stale u h writable status known positive e gone =
      rw (commit_run z owner r now s writable (not_committed r.status status))
        (stale_short z (window_of z owner r) r.amount r.id s u h known positive e gone)
