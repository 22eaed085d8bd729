-- ===== src/Quota/Ledger/Holds.antt =====
-- The statements on `quota_reservations` and the invariant.
use kelin_server.Prelude.{
  ℕ, List, ◌+◌, ◌≤◌, ◌≡◌, refl, ap, sym, inl, inr, String, Bool, true, false, none, some, ◌&&◌,
  ◌++◌, [], ◌∷◌, ◌==◌, ok, All, find?, update_where, count, arith, Bool-cases, &&-true, count_mono,
  sum_by-update_where, count-update_where, All-update_where, find?_holds, count-eq-zero,
  sum_by-append, count-append, All-append, is_some,
}
use kelin_server.Quota.Catalog.{Zones, require_capability, coerce_timezone}
use kelin_server.Quota.Store.{
  Window, Status, held, released, ReservationRow, Session, same_source, is_active, is_status,
}
use kelin_server.Quota.Holds.{marks, mark_reservation}
use kelin_server.Quota.Ledger.{held_in, IsStored, IsLedgerWith, IsLedger, nothing, amount_in}
use kelin_server.Quota.Ledger.Keys.{same_source-eq, same_source_cong}

abbrev pub with_rows :
    (ReservationRow → Bool) → (ReservationRow → ReservationRow) → Session → Session
with_rows p f s = record s { reservations = update_where p f s.reservations }

module _ (p : ReservationRow → Bool) (f : ReservationRow → ReservationRow) (s : Session)
    (pending : Window → ℕ) (h : IsLedgerWith pending s) (row : ReservationRow)
    (e : find? p s.reservations ≡ some row) (one : count p s.reservations ≤ 1) where
  -- An UPDATE of one reservation that keeps its keys, and holds what is pending.
  pub with_rows-IsLedgerWith :
      (pending' : Window → ℕ)
      → ((x : ReservationRow) → (f x).id ≡ x.id)
      → ((x : ReservationRow)
          → p x ≡ true
          → (owner : ℕ) (capability : String) (source_id : ℕ)
          → same_source owner capability source_id (f x) ≡ same_source owner capability source_id x)
      → ((x : ReservationRow) → IsStored s.next_id x → IsStored s.next_id (f x))
      → ((v : Window) → pending v + held_in v (f row) ≡ pending' v + held_in v row)
      → IsLedgerWith pending' (with_rows p f s)
  with_rows-IsLedgerWith pending' ids sources keeps moves = record {
    one_window = h.one_window;
    one_source = λ o c i.
        rw
          (count-update_where (same_source o c i) p f s.reservations (λ x hit. sources x hit o c i))
          (h.one_source o c i);
    one_id = λ i.
        rw
          (count-update_where (λ r. r.id == i) p f s.reservations
            (λ x hit. ap (λ (n : ℕ). n == i) (ids x)))
          (h.one_id i);
    stored = All-update_where (IsStored s.next_id) p f s.reservations (λ x hit. keeps x) h.stored;
    within = h.within;
    counted = λ v.
        omega
          (arith, h.counted v, sum_by-update_where (held_in v) p f s.reservations one e, moves v);
  }

-- `mark_reservation` on a row that it matches.
abbrev pub with_mark : ℕ → (Status → Bool) → Status → Session → Session
with_mark id from_status to_status =
    with_rows (marks id from_status) (λ r. record r { status = to_status })

pub mark_reservation_lem :
    (id : ℕ) (from_status : Status → Bool) (to_status : Status) (s : Session)
    → mark_reservation id from_status to_status s ≡ (
      ok (is_some (find? (marks id from_status) s.reservations)),
      with_mark id from_status to_status s,
    )
unfolding mark_reservation
mark_reservation_lem id from_status to_status s = refl

pub marks_one :
    (id : ℕ) (from_status : Status → Bool) (s : Session) {pending : Window → ℕ}
    → IsLedgerWith pending s
    → count (marks id from_status) s.reservations ≤ 1
unfolding marks
marks_one id from_status s h = omega (
  arith,
  h.one_id id,
  count_mono (marks id from_status) (λ r. r.id == id) s.reservations
      (λ x e. (&&-true (x.id == id) (from_status x.status) e).0),
)

closes :
    (row : ReservationRow) (to_status : Status) (v : Window)
    → is_active row.status ≡ true
    → is_active to_status ≡ false
    → amount_in row.window row.amount v + held_in v (record row { status = to_status })
      ≡ nothing v + held_in v row
closes row to_status v active closed = ground arith

-- Closing an active reservation settles what is pending of it.
pub with_mark-IsLedger :
    (id : ℕ) (from_status : Status → Bool) (to_status : Status) (s : Session) (row : ReservationRow)
    → IsLedgerWith (amount_in row.window row.amount) s
    → find? (marks id from_status) s.reservations ≡ some row
    → is_active row.status ≡ true
    → is_active to_status ≡ false
    → IsLedger (with_mark id from_status to_status s)
with_mark-IsLedger id from_status to_status s row h e active closed =
    with_rows-IsLedgerWith (marks id from_status) (λ r. record r { status = to_status }) s
      (amount_in row.window row.amount) h row e (marks_one id from_status s h) nothing (λ x. refl)
      (λ x hit. same_source_cong (record x { status = to_status }) x refl refl refl) (λ x k. k)
      (λ v. closes row to_status v active closed)

-- The row that the INSERT writes.
abbrev pub new_row : Zones → Window → String → ℕ → ℕ → ℕ → ℕ → ReservationRow
new_row z w timezone source_id amount expires_at id = record {
  id = id;
  window = w;
  timezone = coerce_timezone z (some timezone);
  source_id = source_id;
  amount = amount;
  expires_at = expires_at;
  status = held;
}

abbrev pub with_insert : ReservationRow → Session → Session
with_insert row s = record s { reservations = s.reservations ++ row ∷ []; next_id = s.next_id + 1 }

IsStored-later :
    (n : ℕ) (rows : List ReservationRow) → All (IsStored n) rows → All (IsStored (n + 1)) rows
IsStored-later n [] h = tt
IsStored-later n (x ∷ xs) ((known, positive, id), hs) =
    ((known, positive, omega arith), IsStored-later n xs hs)

pub fresh_id :
    (n i : ℕ) (rows : List ReservationRow)
    → All (IsStored n) rows
    → n ≤ i
    → count (λ r. r.id == i) rows ≡ 0
fresh_id n i [] h le = refl
fresh_id n i (x ∷ xs) (hx, hs) le = ground (arith, hx.2, fresh_id n i xs hs le)

module _ (row : ReservationRow) (s : Session) (h : IsLedger s) (id : row.id ≡ s.next_id)
    (known : require_capability row.window.capability ≡ ok row.window.capability)
    (positive : 1 ≤ row.amount) (is_held : row.status ≡ held)
    (absent : find?
        (same_source row.window.user_id row.window.capability row.source_id)
        s.reservations
      ≡ none) where
  insert_one_source :
      (o : ℕ) (c : String) (i : ℕ) → count (same_source o c i) (s.reservations ++ row ∷ []) ≤ 1
  insert_one_source o c i = elim (Bool-cases (same_source o c i row)) [
    | inl hit ↦
        let k = same_source-eq o c i row hit in
        let none_yet : count (same_source o c i) s.reservations ≡ 0 =
          rw (← k.0, ← k.1, ← k.2)
            (count-eq-zero (same_source row.window.user_id row.window.capability row.source_id)
              s.reservations absent) in
        rw (count-append (same_source o c i) s.reservations (row ∷ [])) (ground arith)
    | inr miss ↦
        rw (count-append (same_source o c i) s.reservations (row ∷ []))
          (ground (arith, h.one_source o c i))
  ]

  insert_one_id : (i : ℕ) → count (λ r. r.id == i) (s.reservations ++ row ∷ []) ≤ 1
  insert_one_id i =
      rw (count-append (λ (r : ReservationRow). r.id == i) s.reservations (row ∷ []))
        (ground (arith, h.one_id i, fresh_id s.next_id i s.reservations h.stored))

  -- A new reservation holds its amount before it is counted.
  pub with_insert-IsLedgerWith : IsLedgerWith (amount_in row.window row.amount) (with_insert row s)
  with_insert-IsLedgerWith = record {
    one_window = h.one_window;
    one_source = insert_one_source;
    one_id = insert_one_id;
    stored =
        All-append (IsStored (s.next_id + 1)) s.reservations (row ∷ [])
          (IsStored-later s.next_id s.reservations h.stored) ((known, positive, omega arith), tt);
    within = h.within;
    counted =
        λ v. rw (sum_by-append (held_in v) s.reservations (row ∷ [])) (ground (arith, h.counted v));
  }

-- The rows that the UPDATE of `reopen_reservation` changes, and how.
abbrev pub reopens : ℕ → String → ℕ → ReservationRow → Bool
reopens owner capability source_id r =
    same_source owner capability source_id r && is_status released r.status

abbrev pub reopened : Zones → Window → String → ℕ → ℕ → ReservationRow → ReservationRow
reopened z w timezone amount expires_at r = record r {
  status = held;
  window = w;
  timezone = coerce_timezone z (some timezone);
  amount = amount;
  expires_at = expires_at;
}

released_holds_nothing :
    (row : ReservationRow) (v : Window) → is_status released row.status ≡ true → held_in v row ≡ 0
released_holds_nothing row v e = ground arith

module _ (z : Zones) (w : Window) (timezone : String) (source_id amount expires_at : ℕ)
    (s : Session) (h : IsLedger s) (row : ReservationRow)
    (known : require_capability w.capability ≡ ok w.capability) (positive : 1 ≤ amount)
    (e : find? (reopens w.user_id w.capability source_id) s.reservations ≡ some row) where
  -- A released row that is opened again holds its new amount before it is counted.
  pub reopen-IsLedgerWith : IsLedgerWith (amount_in w amount) (
      with_rows
        (reopens w.user_id w.capability source_id)
        (reopened z w timezone amount expires_at)
        s)
  reopen-IsLedgerWith =
      let p = reopens w.user_id w.capability source_id in
      let f = reopened z w timezone amount expires_at in
      with_rows-IsLedgerWith p f s nothing h row e
        (omega (
          arith,
          h.one_source w.user_id w.capability source_id,
          count_mono p (same_source w.user_id w.capability source_id) s.reservations (λ x hit.
              (&&-true (same_source w.user_id w.capability source_id x)
                (is_status released x.status) hit).0),
        ))
        (amount_in w amount) (λ x. refl)
        (λ x hit.
          let k =
            same_source-eq w.user_id w.capability source_id x
              (&&-true (same_source w.user_id w.capability source_id x)
                (is_status released x.status) hit).0 in
          same_source_cong (f x) x (sym k.0) (sym k.1) refl)
        (λ x k. (known, positive, k.2))
        (λ v. ground (
          arith,
          released_holds_nothing row v
              (&&-true (same_source w.user_id w.capability source_id row)
                (is_status released row.status) (find?_holds p s.reservations e)).1,
        ))
