-- ===== src/Quota/Ledger/Steps.antt =====
-- Counting what has been opened, and new rows of usage.
use kelin_server.Prelude.{
  ℕ, List, ◌≤◌, ◌≡◌, refl, sym, inl, inr, String, Option, none, some, ◌++◌, [], ◌∷◌, ok, err, find?,
  count, arith, Bool-cases, Option-cases, ◌>>=◌, Keeps, after_read, Keeps-bind-lift, subst, Result,
  count-eq-zero, All-append, sum_by-append, count-append, ℕ,
}
use kelin_server.Quota.Catalog.{Zones, require_capability}
use kelin_server.Quota.Store.{Window, UsageRow, Session, same_window}
use kelin_server.Quota.Usage.{ensure_usage_row, insert_usage, window_at}
use kelin_server.Quota.Reserve.{hold_created}
use kelin_server.Quota.Ledger.{reserved_in, IsWithinLimit, IsLedgerWith, IsLedger, nothing}
use kelin_server.Quota.Ledger.Keys.{same_window-eq}
use kelin_server.Quota.Ledger.Opened.{Creation, count_hold-IsLedger}
use kelin_server.Quota.Ledger.Reads.{hold_created-none-Reads}

add_usage_one_window :
    (row : UsageRow) (rows : List UsageRow)
    → ((w : Window) → count (λ r. same_window r.window w) rows ≤ 1)
    → find? (λ r. same_window r.window row.window) rows ≡ none
    → (w : Window) → count (λ r. same_window r.window w) (rows ++ row ∷ []) ≤ 1
add_usage_one_window row rows one absent w = elim (Bool-cases (same_window row.window w)) [
  | inl hit ↦
      let none_yet : count (λ r. same_window r.window w) rows ≡ 0 =
        rw (← same_window-eq row.window w hit)
          (count-eq-zero (λ r. same_window r.window row.window) rows absent) in
      rw (count-append (λ (r : UsageRow). same_window r.window w) rows (row ∷ [])) (ground arith)
  | inr miss ↦
      rw (count-append (λ (r : UsageRow). same_window r.window w) rows (row ∷ []))
        (ground (arith, one w))
]

module _ (z : Zones) where
  add_usage-IsLedgerWith :
      (pending : Window → ℕ) (row : UsageRow) (s : Session)
      → row.used ≡ 0
      → row.reserved ≡ 0
      → IsLedgerWith pending s
      → find? (λ r. same_window r.window row.window) s.usage ≡ none
      → IsLedgerWith pending (record s { usage = s.usage ++ row ∷ [] })
  add_usage-IsLedgerWith pending row s unused free h absent = record {
    one_window = add_usage_one_window row s.usage h.one_window absent;
    one_source = h.one_source;
    one_id = h.one_id;
    stored = h.stored;
    within = All-append IsWithinLimit s.usage (row ∷ []) h.within (omega arith, tt);
    counted =
        λ v. rw (sum_by-append (reserved_in v) s.usage (row ∷ [])) (ground (arith, h.counted v));
  }

  insert_usage-IsLedgerWith :
      (pending : Window → ℕ) (row : UsageRow) (s : Session)
      → row.used ≡ 0
      → row.reserved ≡ 0
      → IsLedgerWith pending s
      → IsLedgerWith pending (record s { usage = insert_usage z row s.usage })
  insert_usage-IsLedgerWith pending row s unused free h =
      elim (Option-cases (find? (λ r. same_window r.window row.window) s.usage)) [
        | inl absent ↦
            rw (absent, insert_usage) (add_usage-IsLedgerWith pending row s unused free h absent)
        | inr (old, e) ↦ rw (e, insert_usage) h
      ]

module _ (z : Zones) where
  pub ensure_usage_row-Keeps :
      (w : Window) (timezone : String) (limit : ℕ)
      → Keeps IsLedger (ensure_usage_row z w timezone limit)
  unfolding ensure_usage_row
  ensure_usage_row-Keeps w timezone limit =
      Keeps-bind-lift (require_capability w.capability) _
        λ c known. record { at = λ s h. insert_usage-IsLedgerWith z nothing _ s refl refl h }

  pub hold_created-IsLedger :
      (owner : ℕ) (capability : String) (source_id amount limit : ℕ) (found : ℕ × String)
      (expires_at : ℕ) (s : Session) (r : Result (Option ℕ) × Session)
      → require_capability capability ≡ ok capability
      → 1 ≤ amount
      → IsLedger s
      → Creation (window_at owner found.0 capability) amount s r
      → IsLedger
          (◌>>=◌
            (λ _. r)
            (hold_created z owner capability source_id amount limit found expires_at)
            s).1
  hold_created-IsLedger owner capability source_id amount limit found expires_at s (ok none, s')
        known pos h c =
      after_read IsLedger
        (hold_created z owner capability source_id amount limit found expires_at none)
        (hold_created-none-Reads z owner capability source_id amount limit found expires_at) s'
        (subst IsLedger (sym c) h)
  hold_created-IsLedger owner capability source_id amount limit found expires_at s
        (ok (some id), s') known pos h c =
      unfold hold_created in
      count_hold-IsLedger z owner capability source_id amount limit found expires_at id s' known pos
        c
  hold_created-IsLedger owner capability source_id amount limit found expires_at s (err e, s') known
        pos h c =
      subst IsLedger (sym c) h
