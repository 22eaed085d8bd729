-- ===== src/Pact/Again.antt =====
-- A call of create_pact that finds no record stores its row and completes its record.
use kelin_server.Prelude.{
  ℕ, ◌<◌, ◌≡◌, refl, sym, subst, ap, true, false, ◌&&◌, String, List, [], ◌∷◌, Option, none, ◌==◌,
  eq_iff, find?, is_some, inl, inr, Option-cases, arith, All, find?-append_none, ok_inj, Result, ok,
  err, cases_run, if_run, lift, gets, raise, raise_if, api_error, runtime_error, ◌>>=◌,
}
use kelin_server.Clock.{Moment}
use kelin_server.Quota.Catalog.{Zones}
use kelin_server.Spirit.Marks.{Text}
use kelin_server.Pact.Calendar.{week_window}
use kelin_server.Pact.Store.{
  SpiritRow, PactRow, new_record, IdempotencyClaim, LockedPactSpirit, Session, is_active_of,
  is_record, check_pact, owns_spirit, insert_row, insert_unique, insert_pact,
  claim_pact_idempotency, fetch_active_pact, fetch_pact_by_id,
}
use kelin_server.Pact.Create.{
  caught, CreatePactRequest, create_in, create_locked, create_claimed, create_new, finish_create,
  or_conflict, require_notes_memory, new_pact, pact_create_hash, pact_create_operation,
}
use kelin_server.Pact.Tables.{IsPactStore, claim-IsPactStore}
use kelin_server.Pact.Completed.{IsClaimed, IsStored, Completes, finish_create-IsCompleted}

is_record-new :
    (owner client : ℕ) (hash : String)
    → is_record owner pact_create_operation client
        (new_record owner client hash pact_create_operation)
      ≡ true
unfolding is_record
is_record-new owner client hash = ground (arith, eq_iff pact_create_operation pact_create_operation)

module _ (z : Zones) (digest : String → Text → Option ℕ → String) (bank : Result (Unit {0}))
    (owner : ℕ) (body : CreatePactRequest) where
  -- No row has the next id yet.
  fresh_id :
      (n : ℕ) (spirits : List SpiritRow) (rows : List PactRow)
      → All (λ (p : PactRow). p.id < n) rows
      → find? (λ p. p.id == n && owns_spirit owner p.spirit_id spirits) rows ≡ none
  fresh_id n spirits [] h = refl
  fresh_id n spirits (x ∷ xs) (h, hs) = ground (arith, fresh_id n spirits xs hs)

  -- A row that is inserted is stored.
  Stores : Result PactRow × Session → Type 0
  Stores r = (row : PactRow) → r.0 ≡ ok row → IsStored z digest bank owner body row r.1

  insert_row-IsStored :
      (row : PactRow) (s : Session)
      → IsPactStore s
      → IsClaimed z digest bank owner body s
      → owns_spirit owner row.spirit_id s.spirits ≡ true
      → Stores (insert_row row s)
  unfolding Stores fetch_pact_by_id
  insert_row-IsStored row s tables h owned stored e =
      let added = record row { id = s.next_id } in
      subst (λ (p : PactRow). IsStored z digest bank owner body p (insert_row row s).1) (ok_inj e)
        (record {
          claimed = record {
            writable = h.writable;
            locked = h.locked;
            claim = h.claim;
            recorded = h.recorded;
            hash = h.hash;
          };
          stored =
              find?-append_none (λ p. p.id == s.next_id && owns_spirit owner p.spirit_id s.spirits)
                s.pacts added (fresh_id s.next_id s.spirits s.pacts tables.fresh)
                (rw owned (ground arith));
        })

  insert_unique-IsStored :
      (row : PactRow) (s : Session)
      → IsPactStore s
      → IsClaimed z digest bank owner body s
      → owns_spirit owner row.spirit_id s.spirits ≡ true
      → Stores (insert_unique row s)
  unfolding Stores insert_unique
  insert_unique-IsStored row s tables h owned =
      elim (Option-cases (find? (is_active_of row.spirit_id) s.pacts)) [
        | inl e ↦ rw (insert_unique, e) (insert_row-IsStored row s tables h owned)
        | inr (old, e) ↦ rw (insert_unique, e) (λ r k. cc)
      ]

  insert_pact-IsStored :
      (row : PactRow) (s : Session)
      → IsPactStore s
      → IsClaimed z digest bank owner body s
      → Stores (insert_pact owner row s)
  unfolding Stores insert_pact
  insert_pact-IsStored row s tables h =
      if_run Stores (owns_spirit owner row.spirit_id s.spirits)
        (lift (check_pact row) >>= (λ checked. insert_unique row))
        (raise (runtime_error "pact insert did not return a row")) s
        (λ owned.
          cases_run Stores (lift (check_pact row)) (λ checked. insert_unique row) s (λ e k r f. cc)
            (λ checked k. insert_unique-IsStored row s tables h owned))
        (λ alien r e. cc)

  caught-ok : (r : Result PactRow) (row : PactRow) → caught r ≡ ok row → r ≡ ok row
  unfolding caught
  caught-ok (ok a) row h = h
  caught-ok (err e) row h = cc

  create_in-IsCompleted :
      (locked : LockedPactSpirit) (now : Moment) (notes : Option ℕ) (s : Session)
      → IsPactStore s
      → IsClaimed z digest bank owner body s
      → Completes z digest bank owner body (create_in z digest bank owner body locked now notes s)
  unfolding create_in Completes Stores or_conflict
  create_in-IsCompleted locked now notes s tables h =
      cases_run (Completes z digest bank owner body) (lift (week_window z now locked.timezone))
        (λ window.
          or_conflict (insert_pact owner (new_pact z digest bank body locked notes window))
          >>= finish_create z digest bank owner body locked now)
        s (λ e k v r. cc)
        (λ window k.
          let row = new_pact z digest bank body locked notes window in
          cases_run (Completes z digest bank owner body) (or_conflict (insert_pact owner row))
            (finish_create z digest bank owner body locked now) s (λ e f v r. cc)
            (λ stored f.
              finish_create-IsCompleted z digest bank owner body locked now stored
                (insert_pact owner row s).1
                (insert_pact-IsStored row s tables h stored
                  (caught-ok (insert_pact owner row s).0 stored f))))

  create_new-IsCompleted :
      (locked : LockedPactSpirit) (now : Moment) (s : Session)
      → IsPactStore s
      → IsClaimed z digest bank owner body s
      → Completes z digest bank owner body (create_new z digest bank owner body locked now s)
  unfolding create_new require_notes_memory Completes
  create_new-IsCompleted locked now s tables h =
      cases_run (Completes z digest bank owner body) (require_notes_memory owner body)
        (λ notes. gets (fetch_active_pact owner locked.id) >>= (λ active.
          raise_if (is_some active) (api_error "PACT_ALREADY_ACTIVE" 409)
          >>= (λ free. create_in z digest bank owner body locked now notes)))
        s (λ e k v r. cc)
        (λ notes k.
          cases_run (Completes z digest bank owner body)
            (raise_if (is_some (fetch_active_pact owner locked.id s))
              (api_error "PACT_ALREADY_ACTIVE" 409))
            (λ free. create_in z digest bank owner body locked now notes) s (λ e f v r. cc)
            (λ free f. create_in-IsCompleted locked now notes s tables h))

  -- A call without a record is claimed, and the tables are kept.
  Claims : Result IdempotencyClaim × Session → Type 0
  Claims r =
      (c : IdempotencyClaim)
      → r.0 ≡ ok c
      → (c.inserted ≡ true) × IsClaimed z digest bank owner body r.1

  claim-IsClaimed :
      (s : Session)
      → s.read_only ≡ false
      → is_some (find? (λ (r : SpiritRow). r.user_id == owner) s.spirits) ≡ true
      → find? (is_record owner pact_create_operation body.client_id) s.records ≡ none
      → Claims (
          claim_pact_idempotency owner body.client_id
            (pact_create_hash z digest bank body)
            pact_create_operation
            s)
  unfolding claim_pact_idempotency Claims
  claim-IsClaimed s writable there new =
      let hash = pact_create_hash z digest bank body in
      let added = new_record owner body.client_id hash pact_create_operation in
      rw (claim_pact_idempotency, new)
        (λ c e. (
          ap (λ (r : IdempotencyClaim). r.inserted) (sym (ok_inj e)),
          record {
            writable = writable;
            locked = there;
            claim = added;
            recorded =
                find?-append_none (is_record owner pact_create_operation body.client_id) s.records
                  added new (is_record-new owner body.client_id hash);
            hash = refl;
          },
        ))

  pub create_locked-IsCompleted :
      (locked : LockedPactSpirit) (now : Moment) (s : Session)
      → IsPactStore s
      → s.read_only ≡ false
      → is_some (find? (λ (r : SpiritRow). r.user_id == owner) s.spirits) ≡ true
      → find? (is_record owner pact_create_operation body.client_id) s.records ≡ none
      → Completes z digest bank owner body (create_locked z digest bank owner body now locked s)
  unfolding create_locked create_claimed Completes Claims
  create_locked-IsCompleted locked now s tables writable there new =
      let hash = pact_create_hash z digest bank body in
      let claiming = claim_pact_idempotency owner body.client_id hash pact_create_operation in
      cases_run (Completes z digest bank owner body) claiming
        (create_claimed z digest bank owner body locked now) s (λ e k v r. cc)
        (λ claim k.
          let (inserted, claimed) = claim-IsClaimed s writable there new claim k in
          rw inserted (
            create_new-IsCompleted locked now (claiming s).1
              ((claim-IsPactStore owner body.client_id hash pact_create_operation).at s tables)
              claimed))
