-- ===== src/Spirit/Events/Repeat.antt =====
-- A repeated call, and the first one.
use kelin_server.Prelude.{
  ℕ, ◌≡◌, refl, sym, ◌∙◌, ap, subst, Bool, false, String, Result, ok, err, Error, arith, find?,
  lift, cases_run, inl, inr, ◌⊎◌,
}
use kelin_server.Spirit.Growth.{Payload, SourceKey, source_type_of, growth_dedupe_key}
use kelin_server.Spirit.Store.{Session, same_key, assert_writable_transaction}
use kelin_server.Spirit.Events.{
  GrowthEventRow, insert_or_find, insert_growth_event, prepare_event, insert_prepared, Prepared,
  check_payload, insert_and_apply, GrowthRecord, apply_if_new, record_and_apply, growth_message,
  check_and_apply,
}
use kelin_server.Spirit.Events.Once.{
  key_of, IsRecorded, growth_dedupe_key-eq, insert_or_find-IsRecorded, apply_if_new-Keeps,
  insert_unless_old, IsIdle, IsIdle-err, apply_if_new_old, IsKnown,
}

-- What the insertion returns when its key is recorded.
abbrev IsOld : Session → Result GrowthEventRow × Session → Type 0
IsOld s r = (r.1 ≡ s) × ((row : GrowthEventRow) → r.0 ≡ ok row → row.inserted ≡ false)

IsOld-err : (s : Session) (e : Error) → IsOld s (err e, s)
IsOld-err s e = (refl, λ row h. cc h)

insert_or_find-IsOld :
    (spirit : ℕ) (key : SourceKey) (compact : Payload) (at : ℕ) (s : Session)
    → IsRecorded key s
    → IsOld s (insert_or_find spirit key compact at s)
unfolding insert_or_find
insert_or_find-IsOld spirit key compact at s h =
    insert_unless_old spirit key compact at (find? (same_key key) s.events) s h.found

Result-cases : {A : Type 0} (r : Result A) → ((a : A) × (r ≡ ok a)) ⊎ ((e : Error) × (r ≡ err e))
Result-cases (ok a) = inl (a, refl)
Result-cases (err e) = inr (e, refl)

ok_injective : {A : Type 0} (a b : A) → ok a ≡ ok b → a ≡ b
ok_injective a b e = ground arith

-- What is prepared has the key of the event type and the source, under the type of the catalog.
prepare_event-key :
    (event_type : String) (source_id : ℕ) (payload : Payload) (p : Prepared)
    → prepare_event event_type source_id payload ≡ ok p
    → (source_type : String) × (source_type_of event_type ≡ ok source_type)
      × (p.key ≡ key_of source_type source_id event_type)
unfolding prepare_event
prepare_event-key event_type source_id payload p e =
    elim (Result-cases (source_type_of event_type)) [
      | inl (source_type, c) ↦
          elim (Result-cases (growth_dedupe_key source_type source_id event_type)) [
            | inl (key, k) ↦ (
              source_type,
              c,
              ground (arith, growth_dedupe_key-eq source_type source_id event_type k),
            )
            | inr (b, k) ↦ absurd (ground arith)
          ]
      | inr (b, c) ↦ absurd (ground arith)
    ]

insert_growth_event-IsOld :
    (spirit : ℕ) (event_type : String) (source_id : ℕ) (payload : Payload) (at : ℕ) (s : Session)
    → IsKnown event_type source_id s
    → IsOld s (insert_growth_event spirit event_type source_id payload at s)
unfolding insert_growth_event
insert_growth_event-IsOld spirit event_type source_id payload at s h =
    cases_run (IsOld s) (lift (prepare_event event_type source_id payload))
      (insert_prepared spirit at) s (λ e _. IsOld-err s e)
      λ p e.
        let (source_type, c, k) = prepare_event-key event_type source_id payload p e in
        insert_or_find-IsOld spirit p.key p.compact at s (
          subst (λ q. IsRecorded q s)
            (ap (λ t. key_of t source_id event_type)
                (ok_injective h.source_type source_type (sym h.catalog ∙ c))
              ∙ sym k)
            h.recorded)

-- A call whose event is known changes nothing and says that it applied nothing, whatever its
-- payload, its spirit and its instant.
pub record_and_apply_known :
    (owner spirit : ℕ) (event_type : String) (source_id : ℕ) (payload : Payload) (now : ℕ)
    (touch : Bool) (s : Session)
    → IsKnown event_type source_id s
    → IsIdle s (record_and_apply owner spirit event_type source_id payload now touch s)
unfolding record_and_apply assert_writable_transaction
record_and_apply_known owner spirit event_type source_id payload now touch s h =
    cases_run (IsIdle s) (assert_writable_transaction growth_message)
      (λ _. check_and_apply owner spirit event_type source_id payload now touch) s
      (λ e _. IsIdle-err s e)
      λ _ _.
        cases_run (IsIdle s) (lift (check_payload event_type payload))
          (insert_and_apply owner spirit event_type source_id now touch) s (λ e _. IsIdle-err s e)
          λ compact _.
            let old = insert_growth_event-IsOld spirit event_type source_id compact now s h in
            cases_run (IsIdle s) (insert_growth_event spirit event_type source_id compact now)
              (apply_if_new owner spirit now touch) s (λ e _. (old.0, λ rec r. cc r))
              λ row r.
                subst (λ t. IsIdle s (apply_if_new owner spirit now touch row t)) (sym old.0)
                  (apply_if_new_old owner spirit now touch row s (old.1 row r))

-- A call that returns.
abbrev Tells : String → ℕ → Result GrowthRecord × Session → Type 0
Tells event_type source_id r =
    (rec : GrowthRecord) → r.0 ≡ ok rec → IsKnown event_type source_id r.1

insert_growth_event-IsKnown :
    (spirit : ℕ) (event_type : String) (source_id : ℕ) (payload : Payload) (at : ℕ) (s : Session)
    (row : GrowthEventRow)
    → (insert_growth_event spirit event_type source_id payload at s).0 ≡ ok row
    → IsKnown event_type source_id (insert_growth_event spirit event_type source_id payload at s).1
unfolding insert_growth_event
insert_growth_event-IsKnown spirit event_type source_id payload at s =
    cases_run (λ r. (row : GrowthEventRow) → r.0 ≡ ok row → IsKnown event_type source_id r.1)
      (lift (prepare_event event_type source_id payload)) (insert_prepared spirit at) s
      (λ e _ row r. cc r)
      λ p e row r.
        let (source_type, c, k) = prepare_event-key event_type source_id payload p e in
        record {
          source_type = source_type;
          catalog = c;
          recorded =
              subst (λ q. IsRecorded q (insert_or_find spirit p.key p.compact at s).1) k
                (insert_or_find-IsRecorded spirit p.key p.compact at s);
        }

-- A call that returns leaves its event in the session.
pub record_and_apply-IsKnown :
    (owner spirit : ℕ) (event_type : String) (source_id : ℕ) (payload : Payload) (now : ℕ)
    (touch : Bool) (s : Session)
    → Tells event_type source_id
        (record_and_apply owner spirit event_type source_id payload now touch s)
unfolding record_and_apply assert_writable_transaction
record_and_apply-IsKnown owner spirit event_type source_id payload now touch s =
    cases_run (Tells event_type source_id) (assert_writable_transaction growth_message)
      (λ _. check_and_apply owner spirit event_type source_id payload now touch) s
      (λ e _ rec r. cc r)
      λ _ _.
        cases_run (Tells event_type source_id) (lift (check_payload event_type payload))
          (insert_and_apply owner spirit event_type source_id now touch) s (λ e _ rec r. cc r)
          λ compact _.
            cases_run (Tells event_type source_id)
              (insert_growth_event spirit event_type source_id compact now)
              (apply_if_new owner spirit now touch) s (λ e _ rec r. cc r)
              λ row r rec _.
                let h =
                  insert_growth_event-IsKnown spirit event_type source_id compact now s row r in
                record {
                  source_type = h.source_type;
                  catalog = h.catalog;
                  recorded =
                      (apply_if_new-Keeps (key_of h.source_type source_id event_type) owner spirit
                          now touch row).at
                        (insert_growth_event spirit event_type source_id compact now s).1
                        h.recorded;
                }

-- Growth is applied at most once: after a call that returns, every call with the same event type
-- and source leaves the session as it is, and does not say that it applied anything.
pub record_and_apply_once :
    (owner spirit : ℕ) (event_type : String) (source_id : ℕ) (payload : Payload) (now : ℕ)
    (touch : Bool) (s : Session) (rec : GrowthRecord) (owner' spirit' : ℕ) (payload' : Payload)
    (now' : ℕ) (touch' : Bool)
    → (record_and_apply owner spirit event_type source_id payload now touch s).0 ≡ ok rec
    → IsIdle (record_and_apply owner spirit event_type source_id payload now touch s).1 (
        record_and_apply owner' spirit' event_type source_id payload' now' touch'
          (record_and_apply owner spirit event_type source_id payload now touch s).1)
record_and_apply_once owner spirit event_type source_id payload now touch s rec owner' spirit'
      payload' now' touch' e =
    record_and_apply_known owner' spirit' event_type source_id payload' now' touch'
      (record_and_apply owner spirit event_type source_id payload now touch s).1
      (record_and_apply-IsKnown owner spirit event_type source_id payload now touch s rec e)
