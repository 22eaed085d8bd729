-- ===== src/Pact/Active.antt =====
-- What create_pact does while the owner's spirit has an active pact.
use kelin_server.Prelude.{
  ℕ, ◌≡◌, refl, sym, ap, ◌∙◌, true, String, List, [], Option, some, find?, is_some, inl, inr,
  Option-cases, after, Result, ok, cases_run, if_run, lift, gets, raise_if, api_error, ok_inj,
  ◌>>=◌,
}
use kelin_server.Clock.{Moment}
use kelin_server.Quota.Catalog.{Zones}
use kelin_server.Spirit.Marks.{Text}
use kelin_server.Pact.Store.{
  PactRow, IdempotencyClaim, LockedPactSpirit, Session, is_record, assert_writable_transaction,
  lock_owned_spirit, fetch_active_pact, claim_pact_idempotency,
}
use kelin_server.Pact.Create.{
  found, PactCreateSettlement, CreatePactRequest, create_pact, create_locked, create_claimed,
  create_new, create_in, require_notes_memory, replay, replayed, resource_row, check_claim,
  pact_create_hash, pact_create_operation,
}

-- A claim leaves the pacts and the spirits as they are.
claim-kept :
    (owner client : ℕ) (hash : String) (spirit : ℕ) (s : Session)
    → let s' = (claim_pact_idempotency owner client hash pact_create_operation s).1 in
      (s'.pacts ≡ s.pacts) × (fetch_active_pact owner spirit s' ≡ fetch_active_pact owner spirit s)
unfolding claim_pact_idempotency fetch_active_pact
claim-kept owner client hash spirit s =
    elim (Option-cases (find? (is_record owner pact_create_operation client) s.records)) [
      | inl e ↦ rw (claim_pact_idempotency, e) (refl, refl)
      | inr (row, e) ↦ rw (claim_pact_idempotency, e) (refl, refl)
    ]

module _ (z : Zones) (digest : String → Text → Option ℕ → String) (bank : Result (Unit {0}))
    (owner : ℕ) (body : CreatePactRequest) (pacts : List PactRow) where
  -- No pact is new or changed, and what is returned has no event.
  Quiet : Result PactCreateSettlement × Session → Type 0
  Quiet r = (r.1.pacts ≡ pacts) × ((v : PactCreateSettlement) → r.0 ≡ ok v → v.events ≡ [])

  replay-Quiet :
      (claim : IdempotencyClaim) (s : Session)
      → s.pacts ≡ pacts
      → Quiet (replay z digest bank owner body claim s)
  unfolding Quiet replay replayed
  replay-Quiet claim s same =
      cases_run Quiet (lift (check_claim z digest bank claim (pact_create_hash z digest bank body)))
        (λ checked.
          gets (resource_row z digest bank owner body claim)
          >>= (λ r. lift (found r) >>= replayed z digest bank owner))
        s (λ e k. (same, λ v r. cc))
        (λ checked k.
          cases_run Quiet (lift (found (resource_row z digest bank owner body claim s)))
            (replayed z digest bank owner) s (λ e f. (same, λ v r. cc))
            (λ row f. (same, λ v r. ap (λ (w : PactCreateSettlement). w.events) (sym (ok_inj r)))))

  create_new-Quiet :
      (locked : LockedPactSpirit) (now : Moment) (s : Session)
      → s.pacts ≡ pacts
      → is_some (fetch_active_pact owner locked.id s) ≡ true
      → Quiet (create_new z digest bank owner body locked now s)
  unfolding Quiet create_new require_notes_memory
  create_new-Quiet locked now s same active =
      cases_run Quiet (require_notes_memory owner body)
        (λ notes. gets (fetch_active_pact owner locked.id) >>= (λ found_row.
          raise_if (is_some found_row) (api_error "PACT_ALREADY_ACTIVE" 409)
          >>= (λ free. create_in z digest bank owner body locked now notes)))
        s (λ e k. (same, λ v r. cc)) (λ notes k. rw active (same, λ v r. cc))

  create_locked-Quiet :
      (locked : LockedPactSpirit) (now : Moment) (s : Session)
      → s.pacts ≡ pacts
      → is_some (fetch_active_pact owner locked.id s) ≡ true
      → Quiet (create_locked z digest bank owner body now locked s)
  unfolding create_locked create_claimed Quiet
  create_locked-Quiet locked now s same active =
      let hash = pact_create_hash z digest bank body in
      let claiming = claim_pact_idempotency owner body.client_id hash pact_create_operation in
      let (rows, row) = claim-kept owner body.client_id hash locked.id s in
      cases_run Quiet claiming (create_claimed z digest bank owner body locked now) s
        (λ e k. (rows ∙ same, λ v r. cc))
        (λ claim k.
          if_run Quiet claim.inserted (create_new z digest bank owner body locked now)
            (replay z digest bank owner body claim) (claiming s).1
            (λ fresh.
              create_new-Quiet locked now (claiming s).1 (rows ∙ same) (ap is_some row ∙ active))
            (λ old. replay-Quiet claim (claiming s).1 (rows ∙ same)))

module _ (z : Zones) (digest : String → Text → Option ℕ → String) (bank : Result (Unit {0}))
    (owner : ℕ) (body : CreatePactRequest) where
  -- While the owner's spirit has an active pact, a call of create_pact leaves the table of pacts as it
  -- is, whether it returns or raises, and a call that returns reports no event: it is a replay.
  pub create_pact-active :
      (now : Moment) (s : Session) (locked : LockedPactSpirit)
      → lock_owned_spirit owner s ≡ some locked
      → is_some (fetch_active_pact owner locked.id s) ≡ true
      → let (result, s') = create_pact z digest bank owner body now s in
        (s'.pacts ≡ s.pacts) × ((v : PactCreateSettlement) → result ≡ ok v → v.events ≡ [])
  unfolding create_pact assert_writable_transaction Quiet
  create_pact-active now s locked there active =
      let Q = Quiet z digest bank owner body s.pacts in
      cases_run Q assert_writable_transaction
        (λ u. lift bank >>= (λ b.
          gets (lock_owned_spirit owner)
          >>= (λ l. lift (found l) >>= create_locked z digest bank owner body now)))
        s (λ e k. (refl, λ v r. cc))
        (λ u writable.
          cases_run Q (lift bank)
            (λ b.
              gets (lock_owned_spirit owner)
              >>= (λ l. lift (found l) >>= create_locked z digest bank owner body now))
            s (λ e k. (refl, λ v r. cc))
            (λ b loaded.
              after Q (lift (found (lock_owned_spirit owner s)))
                (create_locked z digest bank owner body now) s (ap (λ l. (found l, s)) there)
                (create_locked-Quiet z digest bank owner body s.pacts locked now s refl active)))
