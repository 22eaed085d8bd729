-- ===== src/Pact/Replay.antt =====
-- What a second call of create_pact does.
use kelin_server.Prelude.{
  ℕ, ◌≡◌, refl, ap, true, false, String, [], Option, none, some, ◌==◌, eq_iff, find?, is_some, inl,
  inr, Option-cases, arith, Result, ok, Exec, ◌>>=◌, after, cases_run, lift, gets, raise_if,
  runtime_error,
}
use kelin_server.Clock.{Moment}
use kelin_server.Quota.Catalog.{Zones}
use kelin_server.Spirit.Marks.{Text}
use kelin_server.Pact.Store.{
  IdempotencyRow, IdempotencyClaim, SpiritRow, PactRow, LockedPactSpirit, Session, is_record,
  assert_writable_transaction, lock_owned_spirit, fetch_pact_by_id, claim_pact_idempotency,
}
use kelin_server.Pact.Create.{
  found, PactCreateSettlement, CreatePactRequest, create_pact, create_locked, create_claimed,
  snapshot_of, pact_create_hash, pact_create_operation, replay, replayed, resource_row, check_claim,
}
use kelin_server.Pact.Tables.{IsPactStore}
use kelin_server.Pact.Completed.{IsCompleted, Completes}
use kelin_server.Pact.Again.{create_locked-IsCompleted}

found-lock :
    (owner : ℕ) (s : Session) (locked : LockedPactSpirit)
    → found (lock_owned_spirit owner s) ≡ ok locked
    → is_some (find? (λ (r : SpiritRow). r.user_id == owner) s.spirits) ≡ true
unfolding lock_owned_spirit
found-lock owner s locked e =
    elim (Option-cases (find? (λ (r : SpiritRow). r.user_id == owner) s.spirits)) [
      | inl none_there ↦ ground (arith, none_there)
      | inr (row, there) ↦ rw there refl
    ]

writes :
    (s : Session) (u : Unit {0}) → (assert_writable_transaction s).0 ≡ ok u → s.read_only ≡ false
unfolding assert_writable_transaction
writes s u e = ground arith

module _ (z : Zones) (digest : String → Text → Option ℕ → String) (bank : Result (Unit {0}))
    (owner : ℕ) (body : CreatePactRequest) where
  Settles : Result PactCreateSettlement × Session → Type 0
  Settles r =
      (v : PactCreateSettlement)
      → r.0 ≡ ok v
      → (bank ≡ ok tt) × IsCompleted z digest bank owner body v.pact r.1

  after_bank : Moment → Exec Session PactCreateSettlement
  after_bank now =
      gets (lock_owned_spirit owner)
      >>= (λ locked. lift (found locked) >>= create_locked z digest bank owner body now)

  after_writable : Moment → Exec Session PactCreateSettlement
  unfolding after_bank
  after_writable now = lift bank >>= (λ b. after_bank now)

  create_pact-IsCompleted :
      (now : Moment) (s : Session)
      → IsPactStore s
      → find? (is_record owner pact_create_operation body.client_id) s.records ≡ none
      → Settles (create_pact z digest bank owner body now s)
  unfolding Settles create_pact Completes after_bank after_writable
  create_pact-IsCompleted now s tables new =
      cases_run Settles assert_writable_transaction (λ u. after_writable now) s (λ e k v r. cc)
        (λ u writable.
          cases_run Settles (lift bank) (λ b. after_bank now) s (λ e k v r. cc)
            (λ b loaded.
              cases_run Settles (lift (found (lock_owned_spirit owner s)))
                (create_locked z digest bank owner body now) s (λ e k v r. cc)
                (λ locked k v e. (
                  loaded,
                  create_locked-IsCompleted z digest bank owner body locked now s tables
                      (writes s u writable) (found-lock owner s locked k) new v e,
                ))))

  earlier : IdempotencyRow → IdempotencyClaim
  earlier row = record {
    inserted = false;
    request_hash = row.request_hash;
    status = row.status;
    resource_id = row.resource_id;
  }

  check_claim-completed :
      (c : IdempotencyClaim) (hash : String)
      → c.request_hash ≡ hash
      → c.status ≡ "completed"
      → check_claim z digest bank c hash ≡ ok tt
  unfolding check_claim
  check_claim-completed c hash same done =
      rw (check_claim, done, same) (ground (arith, eq_iff hash hash))

  resource_row-found :
      (c : IdempotencyClaim) (row : PactRow) (t : Session)
      → c.resource_id ≡ some row.id
      → fetch_pact_by_id owner row.id t ≡ some row
      → resource_row z digest bank owner body c t ≡ some row
  unfolding resource_row
  resource_row-found c row t named there = rw (resource_row, named, there) refl

  claim-earlier :
      (row : IdempotencyRow) (hash : String) (t : Session)
      → find? (is_record owner pact_create_operation body.client_id) t.records ≡ some row
      → claim_pact_idempotency owner body.client_id hash pact_create_operation t
        ≡ (ok (earlier row), t)
  unfolding claim_pact_idempotency earlier
  claim-earlier row hash t e = rw (claim_pact_idempotency, e) refl

  -- A completed call is replayed.
  replay-IsCompleted :
      (row : PactRow) (t : Session)
      → (h : IsCompleted z digest bank owner body row t)
      → replay z digest bank owner body (earlier h.kept.claimed.claim) t
        ≡ replayed z digest bank owner row t
  unfolding replay earlier
  replay-IsCompleted row t h =
      let c = earlier h.kept.claimed.claim in
      let Q : Result PactCreateSettlement × Session → Type 0 =
        λ r. r ≡ replayed z digest bank owner row t in
      after Q (lift (check_claim z digest bank c (pact_create_hash z digest bank body)))
        (λ checked.
          gets (resource_row z digest bank owner body c)
          >>= (λ r. lift (found r) >>= replayed z digest bank owner))
        t
        (ap (λ r. (r, t))
          (check_claim-completed c (pact_create_hash z digest bank body) h.kept.claimed.hash
            h.status))
        (after Q (lift (found (resource_row z digest bank owner body c t)))
          (replayed z digest bank owner) t
          (ap (λ r. (found r, t)) (resource_row-found c row t h.resource h.kept.stored)) refl)

  create_locked-replayed :
      (row : PactRow) (t : Session)
      → IsCompleted z digest bank owner body row t
      → (locked : LockedPactSpirit) (later : Moment)
      → create_locked z digest bank owner body later locked t ≡ replayed z digest bank owner row t
  unfolding create_locked create_claimed earlier
  create_locked-replayed row t h locked later =
      after (λ r. r ≡ replayed z digest bank owner row t)
        (claim_pact_idempotency owner body.client_id (pact_create_hash z digest bank body)
          pact_create_operation)
        (create_claimed z digest bank owner body locked later) t
        (claim-earlier h.kept.claimed.claim (pact_create_hash z digest bank body) t
          h.kept.claimed.recorded)
        (replay-IsCompleted row t h)

  lock-found :
      (t : Session)
      → is_some (find? (λ (r : SpiritRow). r.user_id == owner) t.spirits) ≡ true
      → (locked : LockedPactSpirit) × (lock_owned_spirit owner t ≡ some locked)
  unfolding lock_owned_spirit
  lock-found t there =
      elim (Option-cases (find? (λ (r : SpiritRow). r.user_id == owner) t.spirits)) [
        | inl gone ↦ ground (arith, gone)
        | inr (row, e) ↦ rw (lock_owned_spirit, e) (_, refl)
      ]

  allowed : (t : Session) → t.read_only ≡ false → assert_writable_transaction t ≡ (ok tt, t)
  unfolding assert_writable_transaction
  allowed t e =
      ap (λ b. raise_if b (runtime_error "pact cannot write in a read-only transaction") t) e

  create_pact-replayed :
      (row : PactRow) (t : Session)
      → bank ≡ ok tt
      → IsCompleted z digest bank owner body row t
      → (later : Moment)
      → create_pact z digest bank owner body later t ≡ replayed z digest bank owner row t
  unfolding create_pact after_bank after_writable
  create_pact-replayed row t loaded h later =
      let Q : Result PactCreateSettlement × Session → Type 0 =
        λ r. r ≡ replayed z digest bank owner row t in
      let (locked, e) = lock-found t h.kept.claimed.locked in
      after Q assert_writable_transaction (λ u. after_writable later) t
        (allowed t h.kept.claimed.writable)
        (after Q (lift bank) (λ b. after_bank later) t (ap (λ r. (r, t)) loaded)
          (after Q (lift (found (lock_owned_spirit owner t)))
            (create_locked z digest bank owner body later) t (ap (λ r. (found r, t)) e)
            (create_locked-replayed row t h locked later)))

  -- Where the tables hold their invariant and create_pact finds no record of its call and returns, a
  -- second call at any instant returns the same pact with the version of the spirit in the tables and
  -- no event, and changes nothing.
  pub create_pact-replay :
      (now later : Moment) (s : Session)
      → IsPactStore s
      → find? (is_record owner pact_create_operation body.client_id) s.records ≡ none
      → (v : PactCreateSettlement) → (create_pact z digest bank owner body now s).0 ≡ ok v
      → let t = (create_pact z digest bank owner body now s).1 in
        create_pact z digest bank owner body later t ≡ (
          ok (record {
            snapshot_version = snapshot_of z digest bank (lock_owned_spirit owner t) v.pact;
            pact = v.pact;
            events = [];
          }),
          t,
        )
  unfolding replayed Settles
  create_pact-replay now later s tables new v e =
      let t = (create_pact z digest bank owner body now s).1 in
      let (loaded, done) = create_pact-IsCompleted now s tables new v e in
      create_pact-replayed v.pact t loaded done later
