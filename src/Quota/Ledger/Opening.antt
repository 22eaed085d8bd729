-- ===== src/Quota/Ledger/Opening.antt =====
-- The part of `reserve` that opens a hold keeps the invariant, also where it raises.
use kelin_server.Prelude.{
  ℕ, String, ◌+◌, ◌≡◌, refl, Option, none, some, ok, err, arith, after_error, ◌>>=◌, Keeps,
  Keeps-bind, Keeps-pure, Keeps-read, Keeps-bind-lift, zero, suc, integrity_error,
}
use kelin_server.Quota.Catalog.{Zones, require_capability, reservation_ttl}
use kelin_server.Quota.Store.{Window, QuotaReservation, Session}
use kelin_server.Quota.Usage.{window_at, ensure_usage_row, resolve_usage_window, limit_or_default}
use kelin_server.Quota.Holds.{insert_reservation}
use kelin_server.Quota.Reserve.{
  insert_or_reopen, or_reopen, hold_created, create_hold, open_hold, or_open,
}
use kelin_server.Quota.Ledger.{IsLedger}
use kelin_server.Quota.Ledger.Reads.{resolve_usage_window-Reads}
use kelin_server.Quota.Ledger.Opened.{insert_or_reopen-Creation}
use kelin_server.Quota.Ledger.Steps.{ensure_usage_row-Keeps, hold_created-IsLedger}

module _ (z : Zones) where
  insert_zero :
      (w : Window) (timezone : String) (source_id expires_at : ℕ) (s : Session)
      → require_capability w.capability ≡ ok w.capability
      → insert_reservation z w timezone source_id 0 expires_at s
        ≡ (err (integrity_error "ck_quota_reservations_amount"), s)
  unfolding insert_reservation
  insert_zero w timezone source_id expires_at s known = ground arith

  insert_or_reopen_zero :
      (w : Window) (timezone : String) (source_id expires_at : ℕ) (s : Session)
      → require_capability w.capability ≡ ok w.capability
      → insert_or_reopen z w timezone source_id 0 expires_at s
        ≡ (err (integrity_error "ck_quota_reservations_amount"), s)
  unfolding insert_or_reopen
  insert_or_reopen_zero w timezone source_id expires_at s known =
      after_error (λ r. r ≡ (err (integrity_error "ck_quota_reservations_amount"), s))
        (insert_reservation z w timezone source_id 0 expires_at)
        (or_reopen z w timezone source_id 0 expires_at) s
        (insert_zero w timezone source_id expires_at s known) refl

  created-IsLedger :
      (owner : ℕ) (capability : String) (source_id amount limit : ℕ) (found : ℕ × String)
      (expires_at : ℕ) (s : Session)
      → require_capability capability ≡ ok capability
      → IsLedger s
      → IsLedger
          (◌>>=◌
            (insert_or_reopen z
              (window_at owner found.0 capability)
              found.1
              source_id
              amount
              expires_at)
            (hold_created z owner capability source_id amount limit found expires_at)
            s).1
  created-IsLedger owner capability source_id zero limit found expires_at s known h =
      let w = window_at owner found.0 capability in
      after_error (λ r. IsLedger r.1) (insert_or_reopen z w found.1 source_id 0 expires_at)
        (hold_created z owner capability source_id 0 limit found expires_at) s
        (insert_or_reopen_zero w found.1 source_id expires_at s known) h
  created-IsLedger owner capability source_id (suc n) limit found expires_at s known h =
      let w = window_at owner found.0 capability in
      hold_created-IsLedger z owner capability source_id (suc n) limit found expires_at s
        (insert_or_reopen z w found.1 source_id (suc n) expires_at s) known (omega arith) h
        (insert_or_reopen-Creation z w found.1 source_id (suc n) expires_at s h known (omega arith))

  -- The last part of `reserve`, from the row of usage on.
  create_hold-Keeps :
      (owner : ℕ) (capability : String) (source_id now amount limit : ℕ) (found : ℕ × String)
      → require_capability capability ≡ ok capability
      → Keeps IsLedger (create_hold z owner capability source_id now amount limit found)
  unfolding create_hold
  create_hold-Keeps owner capability source_id now amount limit found known =
      Keeps-bind (ensure_usage_row z (window_at owner found.0 capability) found.1 limit)
        (λ _.
          insert_or_reopen z (window_at owner found.0 capability) found.1 source_id amount
            (now + reservation_ttl)
          >>= hold_created z owner capability source_id amount limit found (now + reservation_ttl))
        (ensure_usage_row-Keeps z (window_at owner found.0 capability) found.1 limit)
        λ _. record {
          at = λ s h.
              created-IsLedger owner capability source_id amount limit found (now + reservation_ttl)
                s known h;
        }

  open_hold-Keeps :
      (owner : ℕ) (capability : String) (source_id now : ℕ) (zone : String) (amount : ℕ)
      (limit : Option ℕ)
      → require_capability capability ≡ ok capability
      → Keeps IsLedger (open_hold z owner capability source_id now zone amount limit)
  unfolding open_hold
  open_hold-Keeps owner capability source_id now zone amount limit known =
      Keeps-bind (resolve_usage_window z owner capability now zone) _
        (Keeps-read _ (resolve_usage_window-Reads z owner capability now zone))
        λ found.
          Keeps-bind-lift (limit_or_default capability limit) _
            λ l _. create_hold-Keeps owner capability source_id now amount l found known

  pub or_open-Keeps :
      (owner : ℕ) (capability : String) (source_id now : ℕ) (zone : String) (amount : ℕ)
      (limit : Option ℕ) (o : Option QuotaReservation)
      → require_capability capability ≡ ok capability
      → Keeps IsLedger (or_open z owner capability source_id now zone amount limit o)
  unfolding or_open
  or_open-Keeps owner capability source_id now zone amount limit none known =
      open_hold-Keeps owner capability source_id now zone amount limit known
  or_open-Keeps owner capability source_id now zone amount limit (some r) known = Keeps-pure r
