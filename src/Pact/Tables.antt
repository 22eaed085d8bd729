-- ===== src/Pact/Tables.antt =====
-- The invariant of the tables behind pacts, and that create_pact keeps it.
use kelin_server.Prelude.{
  ℕ, ◌+◌, ◌≤◌, ◌<◌, ◌≡◌, refl, String, [], ◌∷◌, Option, some, find?, ◌==◌, is_some, inl, inr,
  Option-cases, arith, All, All-append, count, count-update_where, Result, Keeps, Keeps-bind,
  Keeps-lift, Keeps-gets, Keeps-raise_if, Keeps-if, lift, gets, raise, raise_if, if_run,
  runtime_error, api_error, ◌>>=◌,
}
use kelin_server.Clock.{Moment}
use kelin_server.Quota.Catalog.{Zones}
use kelin_server.Spirit.Marks.{Text}
use kelin_server.Pact.Calendar.{week_window}
use kelin_server.Pact.Store.{
  insert_unique, PactRow, IdempotencyClaim, LockedPactSpirit, Session, is_active_of, is_record,
  check_pact, owns_spirit, insert_pact, bump_spirit_version, claim_pact_idempotency,
  complete_pact_idempotency, assert_writable_transaction, lock_owned_spirit, fetch_active_pact,
}
use kelin_server.Pact.Unique.{one_more, one_pact, one_more_id, All-fresh}
use kelin_server.Pact.Create.{
  settle_created, CreatePactRequest, create_in, create_pact, create_locked, create_claimed,
  create_new, replay, finish_create, found, or_conflict, require_notes_memory, new_pact,
  pact_create_hash, pact_create_operation, resource_row, replayed, check_claim,
}

-- A spirit has at most one active pact, a call at most one record, an id at most one pact, and the next
-- id is above every id.
pub record IsPactStore (s : Session) : Type 0 where
  pub one_active : (spirit : ℕ) → count (is_active_of spirit) s.pacts ≤ 1
  pub one_id : (id : ℕ) → count (λ (p : PactRow). p.id == id) s.pacts ≤ 1
  pub one_record :
      (owner : ℕ) (operation : String) (client : ℕ)
      → count (is_record owner operation client) s.records ≤ 1
  pub fresh : All (λ (p : PactRow). p.id < s.next_id) s.pacts

module _ (owner client : ℕ) (hash operation : String) where
  pub claim-IsPactStore : Keeps IsPactStore (claim_pact_idempotency owner client hash operation)
  unfolding claim_pact_idempotency
  claim-IsPactStore = record {
    at = λ s h. elim (Option-cases (find? (is_record owner operation client) s.records)) [
      | inr (row, e) ↦ rw (claim_pact_idempotency, e) h
      | inl e ↦
          rw (claim_pact_idempotency, e)
            (record {
              one_active = h.one_active;
              one_id = h.one_id;
              fresh = h.fresh;
              one_record = λ o p c.
                  one_more owner client hash operation o p c s.records (h.one_record o p c) e;
            })
    ];
  }

complete-IsPactStore :
    (owner client resource : ℕ) (operation kind : String)
    → Keeps IsPactStore (complete_pact_idempotency owner client resource operation kind)
unfolding complete_pact_idempotency is_record
complete-IsPactStore owner client resource operation kind = record {
  at = λ s h. record {
    one_active = h.one_active;
    one_id = h.one_id;
    fresh = h.fresh;
    one_record = λ o p c.
        rw
          (count-update_where (is_record o p c) (is_record owner operation client)
            (λ r. record r {
              status = "completed";
              resource_type = some kind;
              resource_id = some resource;
            })
            s.records (λ x e. refl))
          (h.one_record o p c);
  };
}

bump-IsPactStore : (owner spirit : ℕ) → Keeps IsPactStore (bump_spirit_version owner spirit)
unfolding bump_spirit_version
bump-IsPactStore owner spirit = record {
  at = λ s h. record {
    one_active = h.one_active;
    one_id = h.one_id;
    fresh = h.fresh;
    one_record = h.one_record;
  };
}

insert_unique-IsPactStore : (row : PactRow) → row.id ≡ 0 → Keeps IsPactStore (insert_unique row)
unfolding insert_unique
insert_unique-IsPactStore row zero_id = record {
  at = λ s h. elim (Option-cases (find? (is_active_of row.spirit_id) s.pacts)) [
    | inr (old, e) ↦ rw (insert_unique, e) h
    | inl e ↦
        rw (insert_unique, e)
          (record {
            one_record = h.one_record;
            one_id = λ id.
                one_more_id (record row { id = s.next_id }) id s.pacts s.next_id h.fresh refl
                  (h.one_id id);
            one_active = λ spirit.
                one_pact (record row { id = s.next_id }) spirit s.pacts (h.one_active spirit) e;
            fresh =
                All-append (λ p. p.id < s.next_id + 1) s.pacts (record row { id = s.next_id } ∷ [])
                  (All-fresh s.next_id s.pacts h.fresh) (omega arith, tt);
          })
  ];
}

insert_pact-IsPactStore :
    (owner : ℕ) (row : PactRow)
    → row.id ≡ 0
    → Keeps IsPactStore (or_conflict (insert_pact owner row))
unfolding or_conflict insert_pact
insert_pact-IsPactStore owner row zero_id = record {
  at = λ s h.
      if_run (λ r. IsPactStore r.1) (owns_spirit owner row.spirit_id s.spirits)
        (lift (check_pact row) >>= (λ checked. insert_unique row))
        (raise (runtime_error "pact insert did not return a row")) s
        (λ owned.
          (Keeps-bind (lift (check_pact row)) (λ checked. insert_unique row)
              (Keeps-lift (check_pact row)) (λ checked. insert_unique-IsPactStore row zero_id)).at
            s h)
        (λ alien. h);
}

module _ (z : Zones) (digest : String → Text → Option ℕ → String) (bank : Result (Unit {0}))
    (owner : ℕ) (body : CreatePactRequest) where
  finish_create-IsPactStore :
      (locked : LockedPactSpirit) (now : Moment) (row : PactRow)
      → Keeps IsPactStore (finish_create z digest bank owner body locked now row)
  unfolding finish_create settle_created
  finish_create-IsPactStore locked now row =
      Keeps-bind (bump_spirit_version owner locked.id)
        (settle_created z digest bank owner body now row) (bump-IsPactStore owner locked.id)
        (λ snapshot. record {
          at = (complete-IsPactStore owner body.client_id row.id pact_create_operation "pact").at;
        })

  create_in-IsPactStore :
      (locked : LockedPactSpirit) (now : Moment) (notes : Option ℕ)
      → Keeps IsPactStore (create_in z digest bank owner body locked now notes)
  unfolding create_in new_pact
  create_in-IsPactStore locked now notes =
      Keeps-bind (lift (week_window z now locked.timezone)) _
        (Keeps-lift (week_window z now locked.timezone))
        (λ window.
          Keeps-bind
            (or_conflict (insert_pact owner (new_pact z digest bank body locked notes window)))
            (finish_create z digest bank owner body locked now)
            (insert_pact-IsPactStore owner (new_pact z digest bank body locked notes window) refl)
            (finish_create-IsPactStore locked now))

  create_new-IsPactStore :
      (locked : LockedPactSpirit) (now : Moment)
      → Keeps IsPactStore (create_new z digest bank owner body locked now)
  unfolding create_new require_notes_memory
  create_new-IsPactStore locked now =
      Keeps-bind (require_notes_memory owner body) _ (record { at = λ s h. h })
        (λ notes.
          Keeps-bind (gets (fetch_active_pact owner locked.id)) _
            (Keeps-gets (fetch_active_pact owner locked.id))
            (λ active.
              Keeps-bind (raise_if (is_some active) (api_error "PACT_ALREADY_ACTIVE" 409)) _
                (Keeps-raise_if (is_some active) (api_error "PACT_ALREADY_ACTIVE" 409))
                (λ free. create_in-IsPactStore locked now notes)))

  replay-IsPactStore :
      (claim : IdempotencyClaim) → Keeps IsPactStore (replay z digest bank owner body claim)
  unfolding replay replayed
  replay-IsPactStore claim =
      Keeps-bind (lift (check_claim z digest bank claim (pact_create_hash z digest bank body))) _
        (Keeps-lift _)
        (λ checked.
          Keeps-bind (gets (resource_row z digest bank owner body claim)) _ (Keeps-gets _) (λ row.
            Keeps-bind (lift (found row)) (replayed z digest bank owner) (Keeps-lift (found row))
              (λ pact. record { at = λ s h. h })))

  create_locked-IsPactStore :
      (now : Moment) (locked : LockedPactSpirit)
      → Keeps IsPactStore (create_locked z digest bank owner body now locked)
  unfolding create_locked create_claimed
  create_locked-IsPactStore now locked =
      Keeps-bind
        (claim_pact_idempotency owner body.client_id (pact_create_hash z digest bank body)
          pact_create_operation)
        (create_claimed z digest bank owner body locked now)
        (claim-IsPactStore owner body.client_id (pact_create_hash z digest bank body)
          pact_create_operation)
        (λ claim.
          Keeps-if claim.inserted (create_new z digest bank owner body locked now)
            (replay z digest bank owner body claim) (λ e. create_new-IsPactStore locked now)
            (λ e. replay-IsPactStore claim))

  -- Whatever its arguments, create_pact keeps the tables: a spirit has at most one active pact, a
  -- call at most one record, an id at most one pact, and the next id is above every id; where it
  -- raises too.
  pub create_pact-IsPactStore :
      (now : Moment) (s : Session)
      → IsPactStore s
      → IsPactStore (create_pact z digest bank owner body now s).1
  unfolding create_pact assert_writable_transaction
  create_pact-IsPactStore now s h =
      (Keeps-bind {P = IsPactStore} assert_writable_transaction _ (record { at = λ t k. k })
          (λ writable. Keeps-bind (lift bank) _ (Keeps-lift bank) (λ loaded.
            Keeps-bind (gets (lock_owned_spirit owner)) _ (Keeps-gets (lock_owned_spirit owner))
              (λ locked.
                Keeps-bind (lift (found locked)) (create_locked z digest bank owner body now)
                  (Keeps-lift (found locked)) (create_locked-IsPactStore now))))).at
        s h
