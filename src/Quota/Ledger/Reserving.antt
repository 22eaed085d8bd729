-- ===== src/Quota/Ledger/Reserving.antt =====
-- `reserve` keeps the invariant on every branch, also where it raises.
use kelin_server.Prelude.{
  ℕ, String, ◌≡◌, refl, inl, inr, sym, subst, true, Option, none, some, ok, Option-cases, find?,
  ◌&&◌, arith, after_read, if_run, pure, ◌>>=◌, ◌>>◌, lift, if◌then◌else◌, Keeps, Keeps-bind,
  Leads-bind, Keeps-read, Keeps-bind-lift, ltb, ◌||◌, find?_unique, find?_holds,
}
use kelin_server.Clock.{Moment, require_aware}
use kelin_server.Quota.Catalog.{Zones, require_capability, require_capability-eq}
use kelin_server.Quota.Store.{
  Status, held, committed, ReservationRow, QuotaSnapshot, QuotaReservation, Session, Action,
  same_source, is_active, is_status,
}
use kelin_server.Quota.Usage.{assert_writable_transaction, window_at}
use kelin_server.Quota.Holds.{Loaded, marks, load_reservation}
use kelin_server.Quota.Service.{give_back, usage_of, zone_or_preference}
use kelin_server.Quota.Reserve.{
  reuse, reuse_row, reservation_of, or_open, reserve_known, reserve_quota,
}
use kelin_server.Quota.Ledger.{IsLedger}
use kelin_server.Quota.Ledger.Keys.{same_source-eq}
use kelin_server.Quota.Ledger.Reads.{
  usage_of-Reads, load_reservation-Reads, zone_or_preference-Reads,
  assert_writable_transaction-Reads,
}
use kelin_server.Quota.Ledger.Operations.{give_back_lem, released-IsLedger}
use kelin_server.Quota.Ledger.Holds.{marks_one}
use kelin_server.Quota.Ledger.Opening.{or_open-Keeps}

-- What `require_capability` returns is a capability of the catalog.
pub require_capability_self :
    (c d : String) → require_capability c ≡ ok d → require_capability d ≡ ok d
require_capability_self c d e =
    subst (λ x. require_capability x ≡ ok d) (require_capability-eq c d e) e

-- The statuses that `from_status` may be.
is_status_self : (a : Status) → is_status a a ≡ true
is_status_self held = refl
is_status_self _ = refl

-- What `load_reservation` says of a session.
abbrev IsLoaded : ℕ → String → ℕ → Option Loaded → Session → Type 0
IsLoaded owner capability source_id none s = Unit
IsLoaded owner capability source_id (some l) s =
    (row : ReservationRow) × (find? (same_source owner capability source_id) s.reservations
      ≡ some row)
    × (l.id ≡ row.id)
    × (l.status ≡ row.status)
    × (l.usage_date ≡ row.window.usage_date)
    × (l.amount ≡ row.amount)

module _ (z : Zones) where
  load_reservation-IsLoaded :
      (owner : ℕ) (capability : String) (source_id : ℕ) (s : Session) (l : Option Loaded)
      → require_capability capability ≡ ok capability
      → (load_reservation z owner capability source_id s).0 ≡ ok l
      → IsLoaded owner capability source_id l s
  unfolding load_reservation
  load_reservation-IsLoaded owner capability source_id s none known e = tt
  load_reservation-IsLoaded owner capability source_id s (some l) known e =
      elim (Option-cases (find? (same_source owner capability source_id) s.reservations)) [
        | inl absent ↦ absurd (ground arith)
        | inr (row, found) ↦ (row, found, ground arith, ground arith, ground arith, ground arith)
      ]

  -- A stale hold is given back.
  give_back_loaded-IsLedger :
      (owner : ℕ) (capability : String) (source_id : ℕ) (l : Loaded) (s : Session)
      → IsLoaded owner capability source_id (some l) s
      → IsLedger s
      → is_active l.status ≡ true
      → IsLedger
          (give_back z
            (window_at owner l.usage_date capability)
            l.amount
            l.id
            (is_status l.status)
            s).1
  unfolding marks
  give_back_loaded-IsLedger owner capability source_id l s (row, e, ids, status, date, amounts) h
        act =
      let k =
        same_source-eq owner capability source_id row
          (find?_holds (same_source owner capability source_id) s.reservations e) in
      let w : window_at owner l.usage_date capability ≡ row.window = ground arith in
      let from = is_status row.status in
      let found : find? (marks row.id from) s.reservations ≡ some row =
        find?_unique (same_source owner capability source_id) (marks row.id from) s.reservations e
          (ground (arith, is_status_self row.status)) (marks_one row.id from s h) in
      let active : is_active row.status ≡ true = rw (← status) act in
      rw (w, amounts, ids, status, give_back_lem z from s h row found active)
        (released-IsLedger z from s h row found active)

  reuse_row-IsLedger :
      (owner : ℕ) (capability : String) (source_id now : ℕ) (l : Loaded) (q : QuotaSnapshot)
      (s : Session)
      → IsLoaded owner capability source_id (some l) s
      → IsLedger s
      → IsLedger (reuse_row z owner capability source_id now l q s).1
  unfolding reuse_row
  reuse_row-IsLedger owner capability source_id now l q s loaded h =
      let back =
        give_back z (window_at owner l.usage_date capability) l.amount l.id (is_status l.status) in
      let stop : Action (Option QuotaReservation) = pure none in
      if_run (λ r. IsLedger r.1)
        (is_status committed l.status || is_status held l.status && ltb now l.expires_at)
        (pure (some (reservation_of z capability source_id l q)))
        (if is_active l.status then back >> stop else stop) s (λ _. h)
        (λ _.
          if_run (λ r. IsLedger r.1) (is_active l.status) (back >> stop) stop s
            (λ act.
              (Leads-bind {P = λ t. t ≡ s} {Q = IsLedger} back (λ _. stop)
                  (λ t e.
                    subst (λ u. IsLedger (back u).1) (sym e)
                      (give_back_loaded-IsLedger owner capability source_id l s loaded h act))
                  (λ t o e _.
                    subst (λ u. IsLedger (back u).1) (sym e)
                      (give_back_loaded-IsLedger owner capability source_id l s loaded h act))).at
                s refl)
            (λ _. h))

  reuse-IsLedger :
      (owner : ℕ) (capability : String) (source_id now : ℕ) (l : Option Loaded) (s : Session)
      → IsLoaded owner capability source_id l s
      → IsLedger s
      → IsLedger (reuse z owner capability source_id now l s).1
  unfolding reuse
  reuse-IsLedger owner capability source_id now none s loaded h = h
  reuse-IsLedger owner capability source_id now (some l) s loaded h =
      let w = window_at owner l.usage_date capability in
      let same = (usage_of-Reads z w).same in
      (Leads-bind {P = λ t. IsLoaded owner capability source_id (some l) t × IsLedger t}
          {Q = IsLedger} (usage_of z w) (reuse_row z owner capability source_id now l)
          (λ t p. after_read IsLedger (usage_of z w) (usage_of-Reads z w) t p.1)
          (λ t q p e.
            subst (λ u. IsLedger (reuse_row z owner capability source_id now l q u).1)
              (sym (same t)) (reuse_row-IsLedger owner capability source_id now l q t p.0 p.1))).at
        s (loaded, h)

  reserve_known-Keeps :
      (owner : ℕ) (capability : String) (source_id now : ℕ) (timezone : Option String) (amount : ℕ)
      (limit : Option ℕ)
      → require_capability capability ≡ ok capability
      → Keeps IsLedger (reserve_known z owner capability source_id now timezone amount limit)
  unfolding reserve_known
  reserve_known-Keeps owner capability source_id now timezone amount limit known =
      let load = load_reservation z owner capability source_id in
      let reads = load_reservation-Reads z owner capability source_id in
      Keeps-bind (zone_or_preference z owner timezone)
        (λ zone. load >>= λ existing.
          reuse z owner capability source_id now existing
          >>= or_open z owner capability source_id now zone amount limit)
        (Keeps-read _ (zone_or_preference-Reads z owner timezone))
        λ zone.
          let rest = λ (existing : Option Loaded).
            reuse z owner capability source_id now existing
            >>= or_open z owner capability source_id now zone amount limit in
          Leads-bind {P = IsLedger} {Q = IsLedger} load rest (after_read IsLedger load reads)
            (λ s l h e.
              subst (λ u. IsLedger (rest l u).1) (sym (reads.same s))
                ((Leads-bind {P = λ t. IsLoaded owner capability source_id l t × IsLedger t}
                    {Q = IsLedger} (reuse z owner capability source_id now l)
                    (or_open z owner capability source_id now zone amount limit)
                    (λ t p. reuse-IsLedger owner capability source_id now l t p.0 p.1)
                    (λ t o p _.
                      (or_open-Keeps z owner capability source_id now zone amount limit o known).at
                        (reuse z owner capability source_id now l t).1
                        (reuse-IsLedger owner capability source_id now l t p.0 p.1))).at
                  s (load_reservation-IsLoaded owner capability source_id s l known e, h)))

  -- Whatever its arguments, `reserve` keeps the invariant, where it raises too.
  pub reserve_quota-IsLedger :
      (owner : ℕ) (capability : String) (source_id : ℕ) (now : Moment) (timezone : Option String)
      (amount : ℕ) (limit : Option ℕ) (s : Session)
      → IsLedger s
      → IsLedger (reserve_quota z owner capability source_id now timezone amount limit s).1
  unfolding reserve_quota
  reserve_quota-IsLedger owner capability source_id now timezone amount limit s h =
      (Keeps-bind-lift {P = IsLedger} (require_aware now)
          (λ t. lift (require_capability capability) >>= λ cap.
            assert_writable_transaction
            >> reserve_known z owner cap source_id t timezone amount limit)
          λ t _. Keeps-bind-lift (require_capability capability) _ λ cap known.
            Keeps-bind assert_writable_transaction
              (λ _. reserve_known z owner cap source_id t timezone amount limit)
              (Keeps-read _ assert_writable_transaction-Reads)
              λ _.
                reserve_known-Keeps owner cap source_id t timezone amount limit
                  (require_capability_self capability cap known)).at
        s h
