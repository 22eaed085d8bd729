-- ===== src/Quota/Ledger/Usage.antt =====
-- The statements on `daily_usage` and the invariant.
use kelin_server.Prelude.{
  ℕ, List, ◌+◌, ◌≤◌, ◌≡◌, refl, ap, Bool, true, none, some, ◌&&◌, ok, find?, update_where, sum_by,
  count, arith, &&-true, count_mono, sum_by-update_where, count-update_where, All-update_where,
  find?_holds, update_where_none, count-eq-zero,
}
use kelin_server.Quota.Catalog.{Zones, require_capability}
use kelin_server.Quota.Store.{Window, UsageRow, Session, same_window}
use kelin_server.Quota.Usage.{
  Mode, reserve, release, commit, mode_allows, mode_assigns, update_usage, snapshot_of,
  apply_reserved_delta,
}
use kelin_server.Quota.Ledger.{reserved_in, IsWithinLimit, IsLedgerWith, nothing, amount_in}
use kelin_server.Quota.Ledger.Keys.{same_window-eq}

-- The test of the WHERE clause.
abbrev pub matches : Window → (UsageRow → Bool) → UsageRow → Bool
matches w allows row = same_window row.window w && allows row

abbrev pub with_usage : Window → (UsageRow → Bool) → (UsageRow → UsageRow) → Session → Session
with_usage w allows assigns s = record s { usage = update_where (matches w allows) assigns s.usage }

-- A statement of a known capability and a positive amount is its UPDATE.
pub apply_reserved_delta_lem :
    (z : Zones) (w : Window) (amount : ℕ) (mode : Mode) (s : Session)
    → require_capability w.capability ≡ ok w.capability
    → 1 ≤ amount
    → apply_reserved_delta z w amount mode s
      ≡ update_usage z w (mode_allows mode amount) (mode_assigns mode amount) s
unfolding apply_reserved_delta
apply_reserved_delta_lem z w amount mode s known positive = ground arith

module _ (z : Zones) (w : Window) (allows : UsageRow → Bool) (assigns : UsageRow → UsageRow)
    (s : Session) where
  -- The row that the UPDATE returns, if there is one, and the session that it leaves.
  pub update_usage-some :
      (row : UsageRow)
      → find? (matches w allows) s.usage ≡ some row
      → update_usage z w allows assigns s
        ≡ (ok (some (snapshot_of z (assigns row) w.capability)), with_usage w allows assigns s)
  unfolding update_usage
  update_usage-some row e = ground arith

  pub update_usage-none :
      find? (matches w allows) s.usage ≡ none → update_usage z w allows assigns s ≡ (ok none, s)
  unfolding update_usage
  update_usage-none e = ground (
    arith,
    update_where_none (matches w allows) assigns s.usage
        (count-eq-zero (matches w allows) s.usage e),
  )

module _ (w : Window) (allows : UsageRow → Bool) (assigns : UsageRow → UsageRow) (s : Session)
    (pending : Window → ℕ) (h : IsLedgerWith pending s) (row : UsageRow)
    (e : find? (matches w allows) s.usage ≡ some row) where
  one_match : count (matches w allows) s.usage ≤ 1
  one_match = omega (
    arith,
    h.one_window w,
    count_mono (matches w allows) (λ r. same_window r.window w) s.usage
        (λ x e. (&&-true (same_window x.window w) (allows x) e).0),
  )

  -- The reserved sum of each window moves by the change of the row.
  pub reserved_moves :
      (v : Window)
      → sum_by (reserved_in v) (with_usage w allows assigns s).usage + reserved_in v row
        ≡ sum_by (reserved_in v) s.usage + reserved_in v (assigns row)
  reserved_moves v =
      sum_by-update_where (reserved_in v) (matches w allows) assigns s.usage one_match e

  -- An UPDATE that keeps the key and the limit, and moves the row by what is pending.
  pub with_usage-IsLedgerWith :
      (pending' : Window → ℕ)
      → ((x : UsageRow) → (assigns x).window ≡ x.window)
      → ((x : UsageRow) → allows x ≡ true → IsWithinLimit x → IsWithinLimit (assigns x))
      → ((v : Window) → pending' v + reserved_in v (assigns row) ≡ pending v + reserved_in v row)
      → IsLedgerWith pending' (with_usage w allows assigns s)
  with_usage-IsLedgerWith pending' key limit moves = record {
    one_window = λ v.
        rw
          (count-update_where (λ r. same_window r.window v) (matches w allows) assigns s.usage
            (λ x _. ap (λ k. same_window k v) (key x)))
          (h.one_window v);
    one_source = h.one_source;
    one_id = h.one_id;
    stored = h.stored;
    within =
        All-update_where IsWithinLimit (matches w allows) assigns s.usage
          (λ x e. limit x (&&-true (same_window x.window w) (allows x) e).1) h.within;
    counted = λ v. omega (arith, h.counted v, reserved_moves v, moves v);
  }

-- The key of the row that was found.
pub matches-window :
    (w : Window) (allows : UsageRow → Bool) (rows : List UsageRow) {row : UsageRow}
    → find? (matches w allows) rows ≡ some row
    → (row.window ≡ w) × (allows row ≡ true)
matches-window w allows rows {row} e =
    let both =
      &&-true (same_window row.window w) (allows row) (find?_holds (matches w allows) rows e) in
    (same_window-eq row.window w both.0, both.1)

mode_assigns-window :
    (mode : Mode) (amount : ℕ) (x : UsageRow) → (mode_assigns mode amount x).window ≡ x.window
mode_assigns-window reserve amount x = refl
mode_assigns-window release amount x = refl
mode_assigns-window commit amount x = refl

mode_limit :
    (mode : Mode) (amount : ℕ) (x : UsageRow)
    → mode_allows mode amount x ≡ true
    → IsWithinLimit x
    → IsWithinLimit (mode_assigns mode amount x)
mode_limit reserve amount x e h = ground arith
mode_limit release amount x e h = ground arith
mode_limit commit amount x e h = ground arith

-- What is pending before and after the statement of a mode.
abbrev pub pending_before : Mode → Window → ℕ → Window → ℕ
pending_before reserve w amount = amount_in w amount
pending_before release w amount = nothing
pending_before commit w amount = nothing

abbrev pub pending_after : Mode → Window → ℕ → Window → ℕ
pending_after reserve w amount = nothing
pending_after release w amount = amount_in w amount
pending_after commit w amount = amount_in w amount

mode_moves :
    (mode : Mode) (w : Window) (amount : ℕ) (row : UsageRow)
    → row.window ≡ w
    → mode_allows mode amount row ≡ true
    → (v : Window)
    → pending_after mode w amount v + reserved_in v (mode_assigns mode amount row)
      ≡ pending_before mode w amount v + reserved_in v row
mode_moves reserve w amount row k e v = rw k (ground arith)
mode_moves release w amount row k e v = rw k (ground arith)
mode_moves commit w amount row k e v = rw k (ground arith)

-- Each mode's statement takes the invariant from what is pending before it to what is after it.
pub mode-IsLedgerWith :
    (mode : Mode) (w : Window) (amount : ℕ) (s : Session) (row : UsageRow)
    → IsLedgerWith (pending_before mode w amount) s
    → find? (matches w (mode_allows mode amount)) s.usage ≡ some row
    → IsLedgerWith
        (pending_after mode w amount)
        (with_usage w (mode_allows mode amount) (mode_assigns mode amount) s)
mode-IsLedgerWith mode w amount s row h e =
    let found = matches-window w (mode_allows mode amount) s.usage e in
    with_usage-IsLedgerWith w (mode_allows mode amount) (mode_assigns mode amount) s
      (pending_before mode w amount) h row e (pending_after mode w amount)
      (mode_assigns-window mode amount) (mode_limit mode amount)
      (mode_moves mode w amount row found.0 found.1)
