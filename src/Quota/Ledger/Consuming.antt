-- ===== src/Quota/Ledger/Consuming.antt =====
-- `consume` keeps the invariant on every branch.
use kelin_server.Prelude.{
  ℕ, String, ◌≡◌, refl, inl, inr, true, Option, Option-cases, find?, arith, raise_if, value_error,
  Keeps, Keeps-bind, Keeps-read, Keeps-bind-lift, Keeps-raise_if, ◌==◌,
}
use kelin_server.Clock.{Moment, require_aware}
use kelin_server.Quota.Catalog.{Zones, require_capability}
use kelin_server.Quota.Store.{Window, UsageRow, Session}
use kelin_server.Quota.Usage
use kelin_server.Quota.Usage.{
  reserve, mode_allows, consume_row, update_usage, assert_writable_transaction, window_at,
  ensure_usage_row, resolve_usage_window, limit_or_default,
}
use kelin_server.Quota.Service.{consume, or_refuse, zone_or_preference}
use kelin_server.Quota.Ledger.{IsLedger, IsWithinLimit, nothing}
use kelin_server.Quota.Ledger.Reads.{
  zone_or_preference-Reads, resolve_usage_window-Reads, assert_writable_transaction-Reads,
  or_refuse-Reads,
}
use kelin_server.Quota.Ledger.Usage.{
  matches, with_usage-IsLedgerWith, update_usage-some, update_usage-none,
}
use kelin_server.Quota.Ledger.Steps.{ensure_usage_row-Keeps}

consume_limit :
    (amount : ℕ) (x : UsageRow)
    → mode_allows reserve amount x ≡ true
    → IsWithinLimit x
    → IsWithinLimit (consume_row amount x)
unfolding consume_row
consume_limit amount x e h = ground arith

module _ (z : Zones) where
  consume_update-Keeps :
      (w : Window) (amount : ℕ)
      → Keeps IsLedger (update_usage z w (mode_allows reserve amount) (consume_row amount))
  consume_update-Keeps w amount = record {
    at = λ s h.
        let allows = mode_allows reserve amount in
        elim (Option-cases (find? (matches w allows) s.usage)) [
          | inl full ↦ rw (update_usage-none z w allows (consume_row amount) s full) h
          | inr (row, e) ↦ rw (update_usage-some z w allows (consume_row amount) s row e) (
              with_usage-IsLedgerWith w allows (consume_row amount) s nothing h row e nothing
                (unfold consume_row in λ x. refl) (consume_limit amount)
                (unfold consume_row in λ v. refl))
        ];
  }

  row_consume-Keeps :
      (owner : ℕ) (capability : String) (now : ℕ) (zone : String) (amount : ℕ) (limit : Option ℕ)
      → Keeps IsLedger (Usage.consume z owner capability now zone amount limit)
  unfolding Usage.consume
  row_consume-Keeps owner capability now zone amount limit =
      Keeps-bind-lift (require_capability capability) _ λ cap _.
        Keeps-bind (raise_if (amount == 0) (value_error "quota amount must be positive")) _
          (Keeps-raise_if _ _)
          λ _. Keeps-bind-lift (limit_or_default cap limit) _ λ l _.
            Keeps-bind (resolve_usage_window z owner cap now zone) _
              (Keeps-read _ (resolve_usage_window-Reads z owner cap now zone))
              λ found.
                Keeps-bind (ensure_usage_row z (window_at owner found.0 cap) found.1 l) _
                  (ensure_usage_row-Keeps z (window_at owner found.0 cap) found.1 l)
                  λ _. consume_update-Keeps (window_at owner found.0 cap) amount

  -- Whatever its arguments, `consume` keeps the invariant, where it raises too.
  pub consume-IsLedger :
      (owner : ℕ) (capability : String) (now : Moment) (timezone : Option String) (amount : ℕ)
      (limit : Option ℕ) (s : Session)
      → IsLedger s
      → IsLedger (consume z owner capability now timezone amount limit s).1
  unfolding consume
  consume-IsLedger owner capability now timezone amount limit s h =
      (Keeps-bind-lift {P = IsLedger} (require_aware now) _ λ t _.
          Keeps-bind-lift (require_capability capability) _ λ cap _.
            Keeps-bind assert_writable_transaction _
              (Keeps-read _ assert_writable_transaction-Reads)
              λ _.
                Keeps-bind (zone_or_preference z owner timezone) _
                  (Keeps-read _ (zone_or_preference-Reads z owner timezone))
                  λ zone.
                    Keeps-bind (Usage.consume z owner cap t zone amount limit)
                      (or_refuse z owner cap t zone limit)
                      (row_consume-Keeps owner cap t zone amount limit)
                      λ o. Keeps-read _ (or_refuse-Reads z owner cap t zone limit o)).at
        s h
